-- ===== src/Factory.antt =====
-- The object factory (M-EMU/include/misc/obj_factory.hpp). The directory iterator and the dynamic
-- linker are parameters: the files of a directory, and what a file exports if it can be loaded. A
-- text is a list of characters, a pointer to a function a number.
use m_emu.Base.{
  ℕ, ◌≡◌, ◌==◌, ◌⊎◌, inl, inr, Bool-cases, arith, refl, ap, ◌∙◌, Bool, true, false, Option, none,
  some, List, [], ◌∷◌, ◌++◌, if◌then◌else◌,
}
use m_emu.Device.{Access, done, fault}
use m_emu.Gdb.{same_text}

-- The symbols InstanceDesc_GV and GetInstance_API of a loaded file.
pub record Library : Type 0 where
  pub desc_str : Option (List ℕ)
  pub get_instance : Option ℕ

-- What a search comes to: a constructor, the null pointer, or a call of dlclose with the null
-- handle of a file that was not loaded, which is undefined.
pub data Found : Type 0 where
  constructor_func : ℕ → Found
  null_func null_handle : Found

-- strcmp(desc_1->desc_str, desc_2->desc_str) == 0
abbrev pub is_desc_match : List ℕ → List ℕ → Bool
is_desc_match desc_1 desc_2 = same_text desc_1 desc_2

-- The kinds of modules and their directories.
pub data Kind : Type 0 where
  core intc bus dev platform : Kind

abbrev pub lib_path : Kind → List ℕ
lib_path Kind.core = b'.' ∷ b'/' ∷ b'l' ∷ b'i' ∷ b'b' ∷ b'/' ∷ b'c' ∷ b'o' ∷ b'r' ∷ b'e' ∷ []
lib_path Kind.intc = b'.' ∷ b'/' ∷ b'l' ∷ b'i' ∷ b'b' ∷ b'/' ∷ b'i' ∷ b'n' ∷ b't' ∷ b'c' ∷ []
lib_path Kind.bus = b'.' ∷ b'/' ∷ b'l' ∷ b'i' ∷ b'b' ∷ b'/' ∷ b'b' ∷ b'u' ∷ b's' ∷ []
lib_path Kind.dev = b'.' ∷ b'/' ∷ b'l' ∷ b'i' ∷ b'b' ∷ b'/' ∷ b'd' ∷ b'e' ∷ b'v' ∷ []
lib_path Kind.platform =
    b'.' ∷ b'/' ∷ b'l' ∷ b'i' ∷ b'b' ∷ b'/' ∷ b'p' ∷ b'l' ∷ b'a' ∷ b't' ∷ b'f' ∷ b'o' ∷ b'r' ∷ b'm'
    ∷ []

abbrev pub constructed : {I : Type 0} → (ℕ → I) → Found → Access (Option I)
constructed construct (constructor_func f) = done (some (construct f))
constructed construct null_func = done none
constructed construct null_handle = fault

module _ (dlopen : List ℕ → Option Library) where
  -- The body of the loop; `later` is what the loop finds in the other files.
  abbrev pub matched : Option ℕ → Found → Found
  matched none later = later
  matched (some f) later = constructor_func f

  abbrev pub described : List ℕ → Option ℕ → Option (List ℕ) → Found → Found
  described desc get_instance none later = later
  described desc get_instance (some lib_desc) later =
      if is_desc_match desc lib_desc then matched get_instance later else later

  abbrev pub opened : List ℕ → Option Library → Found → Found
  opened desc none later = null_handle
  opened desc (some lib) later = described desc lib.get_instance lib.desc_str later

  unfoldable pub search_libs : List ℕ → List (List ℕ) → Found
  search_libs desc [] = null_func
  search_libs desc (s ∷ libs) = let later = search_libs desc libs in opened desc (dlopen s) later

  module _ (get_lib_names : List ℕ → List (List ℕ)) where
    unfoldable pub get_constructor_func : List ℕ → List ℕ → Found
    get_constructor_func desc path = search_libs desc (get_lib_names path)

    -- Core_GetInstance, IntCtrl_GetInstance, Bus_GetInstance, MMIO_Dev_GetInstance and
    -- Platform_GetInstance, where `construct` calls the constructor with the arguments it takes;
    -- `none` is the null pointer.
    unfoldable pub get_instance : {I : Type 0} → (ℕ → I) → Kind → List ℕ → Access (Option I)
    get_instance construct kind desc =
        constructed construct (get_constructor_func desc (lib_path kind))

  -- The file can be loaded, and it has no description, another one, or no constructor.
  pub record IsPassed (desc s : List ℕ) : Type 0 where
    pub lib : Library
    pub loads : dlopen s ≡ some lib
    pub other :
        (lib.desc_str ≡ none)
        ⊎ ((lib_desc : List ℕ) × (lib.desc_str ≡ some lib_desc) × (same_text desc lib_desc ≡ false))
        ⊎ (lib.get_instance ≡ none)

  abbrev pub AllPassed : List ℕ → List (List ℕ) → Type 0
  AllPassed desc [] = Unit {0}
  AllPassed desc (s ∷ libs) = IsPassed desc s × AllPassed desc libs

  described_passed :
      (desc : List ℕ) (g : Option ℕ) (d : Option (List ℕ)) (later : Found)
      → (d ≡ none)
        ⊎ ((lib_desc : List ℕ) × (d ≡ some lib_desc) × (same_text desc lib_desc ≡ false))
        ⊎ (g ≡ none)
      → described desc g d later ≡ later
  described_passed desc g d later (inl e) = rw e refl
  described_passed desc g d later (inr (inl (lib_desc, e, ne))) = rw (e, ne) refl
  described_passed desc g none later (inr (inr e)) = refl
  described_passed desc g (some lib_desc) later (inr (inr e)) =
      elim (Bool-cases (same_text desc lib_desc)) [
        | inl same ↦ rw (same, e) refl
        | inr ne ↦ rw ne refl
      ]

  search_libs_past :
      (desc : List ℕ) (before rest : List (List ℕ))
      → AllPassed desc before
      → search_libs desc (before ++ rest) ≡ search_libs desc rest
  unfolding search_libs
  search_libs_past desc [] rest h = refl
  search_libs_past desc (s ∷ before) rest h = rw (h.0.loads) (
      described_passed desc h.0.lib.get_instance h.0.lib.desc_str _ h.0.other
      ∙ search_libs_past desc before rest h.1)

same_text_self : (text : List ℕ) → same_text text text ≡ true
unfolding same_text
same_text_self [] = refl
same_text_self (c ∷ cs) = let here : (c == c) ≡ true = ground arith in rw here (same_text_self cs)

-- The constructor of the first file of the directory that has the description and a constructor is
-- found, if every file in front of it can be loaded.
pub get_constructor_func-first :
    (dlopen : List ℕ → Option Library) (get_lib_names : List ℕ → List (List ℕ))
    (desc path s : List ℕ) (before after : List (List ℕ)) (lib : Library) (f : ℕ)
    → get_lib_names path ≡ before ++ (s ∷ after)
    → AllPassed dlopen desc before
    → dlopen s ≡ some lib
    → lib.desc_str ≡ some desc
    → lib.get_instance ≡ some f
    → get_constructor_func dlopen get_lib_names desc path ≡ constructor_func f
unfolding get_constructor_func search_libs
get_constructor_func-first dlopen names desc path s before after lib f e passed loads d g =
    ap (search_libs dlopen desc) e
    ∙ search_libs_past dlopen desc before (s ∷ after) passed
    ∙ rw (loads, d, same_text_self desc, g) refl
