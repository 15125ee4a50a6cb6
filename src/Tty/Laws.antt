-- ===== src/Tty/Laws.antt =====
-- What reaches the modem.
use mathlib.Core.Path.{subst}
use yate_datacard.Device.{Device}
use yate_datacard.Env.{Env, WritesSome}
use yate_datacard.Prelude.{
  Bytes, Option, Option-cases, [], ap, append-nil, append_assoc, arith, codes, drop, inl, inr,
  length, negsuc, none, pos, refl, some, suc, sym, take, take-drop, zero, ℕ, ℤ, ◌++◌, ◌<◌, ◌∙◌, ◌∷◌,
  ◌≡◌, ◌≤◌,
}
use yate_datacard.Tty.{advance, at_write_full, return_sent, write_loop}

-- A write to the end, with the carriage return or, where its own write failed, without; or one that
-- stopped at an error in front of the rest of the text.
pub data Sends (env : Env) (before buf : Bytes) : Bytes × Option ℤ → Type 0 where
  all_of :
      {r : Bytes × Option ℤ}
      → env.write (codes "\r") ≡ some 1
      → r ≡ (before ++ (buf ++ codes "\r"), some (pos 0))
      → Sends env before buf r
  no_return :
      {r : Bytes × Option ℤ}
      → env.write (codes "\r") ≡ none
      → r ≡ (before ++ buf, some (pos 0))
      → Sends env before buf r
  part_of :
      {r : Bytes × Option ℤ} (part rest : Bytes)
      → buf ≡ part ++ rest
      → env.write rest ≡ none
      → r ≡ (before ++ part, some (negsuc 0))
      → Sends env before buf r

length-drop_lt : (n : ℕ) (p : Bytes) → 0 < n → n ≤ length p → length (drop n p) < length p
length-drop_lt zero p h le = absurd (omega arith)
length-drop_lt (suc zero) [] h le = absurd (omega arith)
length-drop_lt (suc (suc n)) [] h le = absurd (omega arith)
length-drop_lt (suc zero) (c ∷ p) h le = omega arith
length-drop_lt (suc (suc n)) (c ∷ p) h le =
    omega (arith, length-drop_lt (suc n) p (omega arith) (omega arith))

-- Text that was taken is in front of what a later write sends.
Sends-append :
    (env : Env) (before taken buf : Bytes) {r : Bytes × Option ℤ}
    → Sends env (before ++ taken) buf r
    → Sends env before (taken ++ buf) r
Sends-append env before taken buf (all_of c e) =
    all_of c (e ∙ rw (append_assoc before taken, append_assoc taken))
Sends-append env before taken buf (no_return c e) = no_return c (e ∙ rw (append_assoc before taken))
Sends-append env before taken buf (part_of part rest s f e) =
    part_of (taken ++ part) rest (rw s (sym (append_assoc taken part rest))) f (e ∙ rw append_assoc)

module _ (env : Env) (w : WritesSome env) where
  -- The carriage return.
  end-Sends : (out : Bytes) → Sends env out [] (write_loop env 0 [] out)
  unfolding write_loop return_sent
  end-Sends out = elim (Option-cases (env.write (codes "\r"))) [
    | inl e ↦ no_return e (rw (e, append-nil) refl)
    | inr (n, e) ↦
        let one : n ≡ 1 =
          omega (arith, w.some_taken (codes "\r") n e (λ x. cc), w.within (codes "\r") n e) in
        all_of (e ∙ ap some one) (rw (e, one) refl)
  ]

  write_loop-Sends :
      (fuel : ℕ) (p out : Bytes) → length p ≤ fuel → Sends env out p (write_loop env fuel p out)
  unfolding write_loop
  write_loop-Sends zero [] out h = end-Sends out
  write_loop-Sends (suc fuel) [] out h = end-Sends out
  write_loop-Sends zero (c ∷ p) out h = absurd (omega arith)
  write_loop-Sends (suc fuel) (c ∷ p) out h = elim (Option-cases (env.write (c ∷ p))) [
    | inl e ↦ rw e (part_of [] (c ∷ p) refl e (rw append-nil))
    | inr (n, e) ↦
        let shorter =
          length-drop_lt n (c ∷ p) (w.some_taken (c ∷ p) n e (λ x. cc)) (w.within (c ∷ p) n e) in
        rw e (
          subst (λ q. Sends env out q (advance (write_loop env fuel) (some n) (c ∷ p) out))
            (take-drop n (c ∷ p))
            (Sends-append env out (take n (c ∷ p)) (drop n (c ∷ p))
              (write_loop-Sends fuel (drop n (c ∷ p)) (out ++ take n (c ∷ p)) (omega arith))))
  ]

  -- `at_write_full` ends. It has sent the whole text and a carriage return and returns 0; or the
  -- write of the carriage return failed, it has sent the whole text without one, and returns 0 all
  -- the same; or the write of some rest of the text failed, it has sent what is in front of that,
  -- and returns -1.
  pub at_write_full-Sends :
      (buf : Bytes) (d : Device)
      → Sends env d.sent buf ((at_write_full env buf d).0.sent, (at_write_full env buf d).1)
  unfolding at_write_full
  at_write_full-Sends buf d = write_loop-Sends (length buf) buf d.sent (omega arith)
