-- ===== src/Tests/Uart.antt =====
-- The theorems on the console at concrete inputs.
use m_emu.Base.{ℕ, ◌≡◌, refl, List, [], ◌∷◌, map, arith}
use m_emu.Words.{le_bytes}
use m_emu.Uart.{create, sign_extended}
use m_emu.Uart.Queues.{put_all, read_all, read_all-put_all, RegsFit}

abbrev typed : List ℕ
typed = 104 ∷ 105 ∷ 200 ∷ []

empty-rx : create.rx ≡ []
unfolding create
empty-rx = refl

empty-tx : create.tx ≡ []
unfolding create
empty-tx = refl

create-RegsFit : RegsFit create.regs
unfolding create RegsFit
create-RegsFit = (omega arith, (omega arith, (omega arith, (omega arith, tt))))

read_all-put_all_example :
    read_all 3 (put_all typed create) ≡ map (λ c. le_bytes 4 (sign_extended c)) typed
read_all-put_all_example = read_all-put_all typed create empty-rx
