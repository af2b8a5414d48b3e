-- ===== src/Gdb/Continue.antt =====
-- The command `c`.
use m_emu.Base.{
  ℕ, zero, suc, ◌≤◌, ◌≡◌, ◌↔◌, refl, subst, ap, ◌∙◌, Bool, true, false, some, List, [], ◌∷◌, ◌++◌,
  arith, Bool-cases, inl, inr, Option, none,
}
use m_emu.Mmu.{SysBus}
use m_emu.Core.{Hart, step, is_current_pc_at_watch_point}
use m_emu.Gdb.Rsp.{
  parse_packet, packet_type_of, params_of, c_string, is_command, is_letter, whole_command,
}
use m_emu.Gdb.Link.{frame}
use m_emu.Gdb.Commands.{
  done, aborted, running, run_to_watch_point, after_step, cmd_continue, halt_reply,
}
use m_emu.Gdb.Stub.{serve, perform}
use m_emu.Gdb.Retries.{Packed, wire, Fits, ack}
use m_emu.Gdb.Rounds.{session, is_accepted, serve-wire, reply-session}

module _ {S : Type 0} (bus : SysBus S) (ws : List ℕ) where
  -- After `n` steps, none of which starts at a watch point, the hart is at one.
  pub data Reaches : ℕ → Hart S → Hart S → Type 0 where
    here : {h : Hart S} → is_current_pc_at_watch_point h.core ws ≡ true → Reaches 0 h h
    next :
        {n : ℕ} {h middle t : Hart S} {value : Unit {0}}
        → is_current_pc_at_watch_point h.core ws ≡ false
        → step bus h ≡ some (middle, value)
        → Reaches n middle t
        → Reaches (suc n) h t

  pub Reaches-run :
      (fuel : ℕ) {n : ℕ} {h t : Hart S}
      → Reaches n h t
      → n ≤ fuel
      → run_to_watch_point bus fuel ws h ≡ done t
  unfolding run_to_watch_point
  Reaches-run zero (here at) le = rw (at, run_to_watch_point) refl
  Reaches-run (suc fuel) (here at) le = rw (at, run_to_watch_point) refl
  Reaches-run zero (next off moves later) le = absurd (omega arith)
  Reaches-run (suc fuel) (next off moves later) le =
      rw (off, run_to_watch_point) (rw moves (Reaches-run fuel later (omega arith)))

  arrived :
      (fuel : ℕ) (h t : Hart S)
      → is_current_pc_at_watch_point h.core ws ≡ true
      → done h ≡ done t
      → (n : ℕ) × (n ≤ fuel) × Reaches n h t
  arrived fuel h t at e =
      let same : h ≡ t = cc in (0, omega arith, subst (λ k. Reaches 0 h k) same (here at))

  running_ne_done : (t : Hart S) → running ≡ done t → ⊥
  running_ne_done t e = cc

  aborted_ne_done : (t : Hart S) → aborted ≡ done t → ⊥
  aborted_ne_done t e = cc

  onward :
      (fuel : ℕ) (h t : Hart S)
      → is_current_pc_at_watch_point h.core ws ≡ false
      → (o : Option (Hart S × Unit {0})) → step bus h ≡ o
      → after_step (run_to_watch_point bus fuel ws) o ≡ done t
      → ((m k : Hart S)
          → run_to_watch_point bus fuel ws m ≡ done k
          → (n : ℕ) × (n ≤ fuel) × Reaches n m k)
      → (n : ℕ) × (n ≤ suc fuel) × Reaches n h t
  onward fuel h t off none moves e ih = absurd (aborted_ne_done t e)
  onward fuel h t off (some (middle, value)) moves e ih =
      let r = ih middle t e in (suc r.0, omega (arith, r.1), next off moves r.2)

  run-Reaches :
      (fuel : ℕ) (h t : Hart S)
      → run_to_watch_point bus fuel ws h ≡ done t
      → (n : ℕ) × (n ≤ fuel) × Reaches n h t
  unfolding run_to_watch_point
  run-Reaches zero h t e = elim (Bool-cases (is_current_pc_at_watch_point h.core ws)) [
    | inl at ↦ arrived 0 h t at (rw (at, run_to_watch_point) at e)
    | inr off ↦ absurd (running_ne_done t (rw (off, run_to_watch_point) at e))
  ]
  run-Reaches (suc fuel) h t e = elim (Bool-cases (is_current_pc_at_watch_point h.core ws)) [
    | inl at ↦ arrived (suc fuel) h t at (rw (at, run_to_watch_point) at e)
    | inr off ↦
        onward fuel h t off (step bus h) refl (rw (off, run_to_watch_point) at e) (run-Reaches fuel)
  ]

-- The loop of cmd_Continue leaves the hart at `t` if and only if some number of steps, within the
-- fuel, lead from the hart to `t`, of which none starts at a watch point, and `t` is at one.
pub run_to_watch_point-Reaches :
    {S : Type 0} (bus : SysBus S) (fuel : ℕ) (ws : List ℕ) (h t : Hart S)
    → (run_to_watch_point bus fuel ws h ≡ done t) ↔ ((n : ℕ) × (n ≤ fuel) × Reaches bus ws n h t)
run_to_watch_point-Reaches bus fuel ws h t =
    (run-Reaches bus ws fuel h t, λ r. Reaches-run bus ws fuel r.2 r.1)

abbrev pub continue_packet : ℕ → ℕ → Packed
continue_packet c0 c1 = record { noise = []; text = b'c' ∷ []; c0 = c0; c1 = c1 }

-- If the hart reaches a watch point within the fuel, the round of an accepted packet `c`, whose
-- answer the debugger acknowledges, ends: the packet is acknowledged twice, the answer is S05,
-- and the hart is at the first watch point that it reaches.
pub serve-continue :
    {S : Type 0} (bus : SysBus S) (fuel stack_size : ℕ) (scan_check_sum : ℕ → ℕ → ℕ) (debug : Bool)
    (c0 c1 n : ℕ) (rest : List ℕ) (sent : List (List ℕ)) (h t : Hart S) (ws : List ℕ)
    → is_accepted scan_check_sum debug (continue_packet c0 c1) ≡ true
    → Reaches bus ws n h t
    → n ≤ fuel
    → serve bus fuel stack_size scan_check_sum debug
        (session (wire (continue_packet c0 c1) (b'+' ∷ rest)) sent h ws)
      ≡ done (session rest (sent ++ (ack ∷ ack ∷ frame halt_reply ∷ [])) t ws)
unfolding perform cmd_continue parse_packet packet_type_of params_of c_string is_command is_letter
    whole_command
serve-continue bus fuel stack_size scan debug c0 c1 n rest sent h t ws ok r le =
    let fits : Fits (continue_packet c0 c1) = record {
      noise = tt;
      text = ((refl, refl), tt);
      size = omega arith;
    } in
    let reached : run_to_watch_point bus fuel ws h ≡ done t = Reaches-run bus ws fuel r le in
    serve-wire bus fuel stack_size scan debug (continue_packet c0 c1) (b'+' ∷ rest) sent h ws fits
      ok
    ∙ rw reached (ap done (reply-session halt_reply (ack ∷ ack ∷ []) rest sent t ws))
