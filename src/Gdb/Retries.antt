-- ===== src/Gdb/Retries.antt =====
-- How often packets are asked for and sent.
use mathlib.Core.List.{append_assoc, append-nil}
use m_emu.Base.{
  ℕ, zero, suc, ◌+◌, ◌<◌, ◌≤◌, ◌≡◌, refl, ap, ◌∙◌, inl, inr, Bool-cases, ltb, Bool, true, false,
  none, some, List, [], ◌∷◌, ◌++◌, length, replicate, ◌==◌, if◌then◌else◌, arith,
}
use m_emu.Device.{ReturnFeedback}
use m_emu.Gdb.Rsp.{cal_check_sum}
use m_emu.Gdb.Link.{
  Link, buffer_size, write, send_ack, send_nak, read_char, recv_and_check, retry_check_sum,
  retry_protocol, recv_packet, frame, resend, packing_and_send,
}
use m_emu.Gdb.Framing.{NoEnd, IsPlain, on_wire, recv_and_check-on_wire}

-- A packet as it stands on the wire, with the characters before it and its check characters.
pub record Packed : Type 0 where
  pub noise : List ℕ
  pub text : List ℕ
  pub c0 : ℕ
  pub c1 : ℕ

abbrev pub wire : Packed → List ℕ → List ℕ
wire p rest = on_wire p.noise p.text (p.c0 ∷ p.c1 ∷ rest)

abbrev pub wires : List Packed → List ℕ → List ℕ
wires [] rest = rest
wires (p ∷ ps) rest = wire p (wires ps rest)

-- The packet fits the buffer.
pub record Fits (p : Packed) : Type 0 where
  pub noise : NoEnd p.noise
  pub text : IsPlain p.text
  pub size : length p.noise + length p.text + 1 < buffer_size

abbrev pub nak : List ℕ
nak = b'-' ∷ []

abbrev pub ack : List ℕ
ack = b'+' ∷ []

replicate-append :
    (n : ℕ) (x : List ℕ) (xs : List (List ℕ)) → replicate n x ++ x ∷ xs ≡ x ∷ (replicate n x ++ xs)
replicate-append zero x xs = refl
replicate-append (suc n) x xs = ap (λ ys. x ∷ ys) (replicate-append n x xs)

module _ (scan_check_sum : ℕ → ℕ → ℕ) where
  abbrev pub is_right : Packed → Bool
  is_right p = scan_check_sum p.c0 p.c1 == cal_check_sum p.text

  abbrev pub AllWrong : List Packed → Type 0
  AllWrong [] = Unit {0}
  AllWrong (p ∷ ps) = (Fits p × (is_right p ≡ false)) × AllWrong ps

  accepted :
      (p : Packed) (rest : List ℕ) (sent : List (List ℕ))
      → Fits p
      → is_right p ≡ true
      → recv_and_check scan_check_sum false (record { incoming = wire p rest; sent = sent })
        ≡ some (record { incoming = rest; sent = sent }, ReturnFeedback.ok, p.text)
  accepted p rest sent f r =
      recv_and_check-on_wire scan_check_sum false p.noise p.text p.c0 p.c1 rest sent f.noise f.text
        f.size
      ∙ rw r refl

  refused :
      (p : Packed) (rest : List ℕ) (sent : List (List ℕ))
      → Fits p
      → is_right p ≡ false
      → recv_and_check scan_check_sum false (record { incoming = wire p rest; sent = sent })
        ≡ some (record { incoming = rest; sent = sent }, ReturnFeedback.chksum_err, [])
  refused p rest sent f r =
      recv_and_check-on_wire scan_check_sum false p.noise p.text p.c0 p.c1 rest sent f.noise f.text
        f.size
      ∙ rw r refl

  retry_ok :
      (n : ℕ) (link : Link) (text : List ℕ)
      → retry_check_sum scan_check_sum false n (link, ReturnFeedback.ok, text)
        ≡ some (link, ReturnFeedback.ok, text)
  unfolding retry_check_sum retry_protocol
  retry_ok zero link text = refl
  retry_ok (suc n) link text = refl

  retried_wires :
      (n : ℕ) (ps : List Packed) (p : Packed) (rest : List ℕ) (sent : List (List ℕ))
      → AllWrong ps
      → Fits p
      → is_right p ≡ true
      → length ps < n
      → retry_check_sum scan_check_sum false n
          (record { incoming = wires ps (wire p rest); sent = sent }, ReturnFeedback.chksum_err, [])
        ≡ some (
          record { incoming = rest; sent = sent ++ replicate (suc (length ps)) nak },
          ReturnFeedback.ok,
          p.text,
        )
  unfolding retry_check_sum send_nak write
  retried_wires zero ps p rest sent w f r lt = absurd (omega arith)
  retried_wires (suc n) [] p rest sent w f r lt =
      rw (accepted p rest (sent ++ nak ∷ []) f r, retry_check_sum) (retry_ok n _ _)
  retried_wires (suc n) (q ∷ qs) p rest sent w f r lt =
      rw (refused q (wires qs (wire p rest)) (sent ++ nak ∷ []) w.0.0 w.0.1, retry_check_sum)
        (retried_wires n qs p rest (sent ++ nak ∷ []) w.1 f r (omega arith)
          ∙ ap (λ s. some (record { incoming = rest; sent = s }, ReturnFeedback.ok, p.text))
              (append_assoc sent (nak ∷ []) _))

  given_up :
      (n : ℕ) (ps : List Packed) (rest : List ℕ) (sent : List (List ℕ))
      → AllWrong ps
      → n ≤ length ps
      → retry_check_sum scan_check_sum false n
          (record { incoming = wires ps rest; sent = sent }, ReturnFeedback.chksum_err, [])
        ≡ none
  unfolding retry_check_sum send_nak write
  given_up zero ps rest sent w le = refl
  given_up (suc n) [] rest sent w le = absurd (omega arith)
  given_up (suc n) (q ∷ qs) rest sent w le =
      rw (refused q (wires qs rest) (sent ++ nak ∷ []) w.0.0 w.0.1, retry_check_sum)
        (given_up n qs rest (sent ++ nak ∷ []) w.1 (omega arith))

  -- Without the debugging configuration: of packets that fit the buffer, with a wrong checksum
  -- in front of one with a right checksum, recvPacket refuses each wrong one with a NAK and
  -- then accepts the right one with an ACK, if there are at most ten of them; after eleven
  -- wrong ones the program ends.
  pub recv_packet-wires :
      (ps : List Packed) (p : Packed) (rest : List ℕ) (sent : List (List ℕ))
      → AllWrong ps
      → Fits p
      → is_right p ≡ true
      → recv_packet scan_check_sum false (record { incoming = wires ps (wire p rest); sent = sent })
        ≡ (if ltb 10 (length ps)
            then none
            else some (
              record { incoming = rest; sent = sent ++ (replicate (length ps) nak ++ ack ∷ []) },
              ReturnFeedback.ok,
              p.text,
            ))
  unfolding recv_packet send_ack write
  recv_packet-wires [] p rest sent w f r =
      rw (accepted p rest sent f r, recv_packet) (rw (retry_ok 10 _ _, recv_packet) refl)
  recv_packet-wires (q ∷ qs) p rest sent w f r =
      rw (refused q (wires qs (wire p rest)) sent w.0.0 w.0.1)
        (elim (Bool-cases (ltb 10 (suc (length qs)))) [
          | inl many ↦ rw many (rw (given_up 10 qs (wire p rest) sent w.1 (ground arith)) refl)
          | inr few ↦ rw few (
              rw (retried_wires 10 qs p rest sent w.1 f r (ground arith)) (
                ap (λ s. some (record { incoming = rest; sent = s }, ReturnFeedback.ok, p.text))
                  (append_assoc sent _ (ack ∷ []))))
        ])

-- No answer is an ACK.
abbrev pub AllRefuse : List ℕ → Type 0
AllRefuse [] = Unit {0}
AllRefuse (c ∷ cs) = ((c == b'+') ≡ false) × AllRefuse cs

resend-answers :
    (n : ℕ) (answers packet rest : List ℕ) (before : ℕ) (sent : List (List ℕ))
    → AllRefuse answers
    → length answers ≤ n
    → resend n packet
        (read_char before (record { incoming = answers ++ (b'+' ∷ rest); sent = sent }))
      ≡ record { incoming = rest; sent = sent ++ replicate (length answers) packet }
unfolding resend read_char write
resend-answers zero [] packet rest before sent h le = rw append-nil refl
resend-answers (suc n) [] packet rest before sent h le = rw append-nil refl
resend-answers zero (c ∷ cs) packet rest before sent h le = absurd (omega arith)
resend-answers (suc n) (c ∷ cs) packet rest before sent h le = rw (h.0) (
    resend-answers n cs packet rest c (sent ++ packet ∷ []) h.1 (omega arith)
    ∙ ap (λ s. record { incoming = rest; sent = s }) (append_assoc sent (packet ∷ []) _))

-- A packet is sent once and then once more for each answer that is not an ACK, of which there may
-- be ten; the ACK behind them ends it.
pub packing_and_send-answers :
    (answers text rest : List ℕ) (sent : List (List ℕ))
    → AllRefuse answers
    → length answers ≤ 10
    → packing_and_send text (record { incoming = answers ++ (b'+' ∷ rest); sent = sent })
      ≡ record { incoming = rest; sent = sent ++ replicate (suc (length answers)) (frame text) }
unfolding packing_and_send write
packing_and_send-answers answers text rest sent h le =
    resend-answers 10 answers (frame text) rest b'-' (sent ++ frame text ∷ []) h le
    ∙ ap (λ s. record { incoming = rest; sent = s }) (append_assoc sent (frame text ∷ []) _)
