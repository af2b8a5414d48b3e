-- ===== src/Plic/Claim.antt =====
-- The claim and the completion of an interrupt.
use m_emu.Base.{
  List, ℕ, ◌+◌, ◌*◌, ◌/◌, ◌%◌, ◌^◌, ◌≤◌, ◌<◌, ◌≡◌, refl, true, false, bit_or, length, get_or,
  get_or-set_self, arith,
}
use native.Mathlib.Nat.{div_self}
use m_emu.Words.{test_bit, test_bit-or, pow_pos}
use m_emu.Device.{done, fault}
use m_emu.Plic.Defs.{RvPliCtrl, set_bit, source_bit, eligible, update_ext, do_read, do_write}

test_bit-pow : (b : ℕ) → test_bit (2 ^ b) b ≡ true
unfolding test_bit
test_bit-pow b = rw (div_self (pow_pos b)) refl

pub set_bit-source_bit :
    (xs : List ℕ) (i : ℕ) → i / 32 < length xs → source_bit (set_bit xs (i / 32) (i % 32)) i ≡ true
set_bit-source_bit xs i lt =
    rw (get_or-set_self xs (i / 32) (bit_or (get_or xs (i / 32) 0) (2 ^ (i % 32))) lt) (
      ground
        (arith, test_bit-or (get_or xs (i / 32) 0) (2 ^ (i % 32)) (i % 32), test_bit-pow (i % 32)))

-- A source that has fired is pending.
pub update_ext-pending :
    (i : ℕ) (p : RvPliCtrl)
    → i / 32 < length p.pending
    → (q : RvPliCtrl) × (update_ext i true p ≡ done q) × (source_bit q.pending i ≡ true)
unfolding update_ext
update_ext-pending i p lt = (
  record p { pending = set_bit p.pending (i / 32) (i % 32) },
  ground arith,
  set_bit-source_bit p.pending i lt,
)

-- The address of the claim register of a context.
abbrev pub claim_addr : ℕ → ℕ
claim_addr context_id = 0x200004 + 0x1000 * context_id

-- Reading the claim register returns the claimed source, and no context can be given that source
-- again before it is completed.
pub do_read-claim :
    (nr_source nr_context context_id other : ℕ) (p : RvPliCtrl)
    → context_id < nr_context
    → nr_context < 2 ^ 32
    → length p.claim ≡ nr_context
    → get_or p.claim context_id 0 / 32 < length p.claimed
    → (q : RvPliCtrl) × (do_read nr_source nr_context (claim_addr context_id) 4 p
        ≡ done (q, get_or p.claim context_id 0))
      × (eligible q other (get_or p.claim context_id 0) ≡ false)
unfolding do_read eligible
do_read-claim nr_source nr_context context_id other p lt small len fits =
    let id : ℕ = get_or p.claim context_id 0 in
    (
      record p { claimed = set_bit p.claimed (id / 32) (id % 32) },
      ground arith,
      rw (set_bit-source_bit p.claimed id fits) (ground arith),
    )

-- A completion with a number that has no word in the bit arrays writes outside them: the number
-- that the guest writes is not checked.
pub do_write-claim_fault :
    (nr_source nr_context context_id v : ℕ) (p : RvPliCtrl)
    → context_id < nr_context
    → nr_context < 2 ^ 32
    → length p.claimed ≤ v / 32
    → do_write nr_source nr_context (claim_addr context_id) 4 v p ≡ fault
unfolding do_write
do_write-claim_fault nr_source nr_context context_id v p lt small out = ground arith
