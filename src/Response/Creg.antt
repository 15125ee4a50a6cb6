-- ===== src/Response/Creg.antt =====
-- `at_parse_creg` (at_parse.cpp): `+CREG: [<p1>,]<p2>[,<p3>,<p4>]`.
pub mod Read
use yate_datacard.Env.{Env}
use yate_datacard.Libc.Scan.{strtol}
use yate_datacard.Prelude.{
  Bool, Bytes, Option, [], eq_ℤ, false, if◌then◌else◌, int_of_long, negsuc, none, not, pos, some,
  true, ℕ, ℤ, ◌&&◌, ◌++◌, ◌==◌, ◌||◌, ◌∷◌,
}

-- The states 0 to 7 of the loop, and 8, where the loop is over and `p4` runs to the end.
pub data CregState : Type 0 where
  find_colon find_p1 in_p1 start_p2 in_p2 find_p3 in_p3 find_p4 in_p4 : CregState

-- The texts at `p1` to `p4`, each up to the NUL that the loop writes over its comma.
pub record Pieces : Type 0 where
  pub at : CregState
  pub p1 : Option Bytes
  pub p2 : Option Bytes
  pub p3 : Option Bytes
  pub p4 : Option Bytes

abbrev grown : Option Bytes → ℕ → Option Bytes
grown none c = some (c ∷ [])
grown (some s) c = some (s ++ c ∷ [])

in_first : ℕ → Pieces → Pieces
in_first c p =
    if c == b',' then record p { at = start_p2 } else record p { at = in_p1; p1 = grown p.p1 c }

in_second : ℕ → Pieces → Pieces
in_second c p =
    if c == b',' then record p { at = find_p3 } else record p { at = in_p2; p2 = grown p.p2 c }

in_third : ℕ → Pieces → Pieces
in_third c p =
    if c == b',' then record p { at = find_p4 } else record p { at = in_p3; p3 = grown p.p3 c }

-- One round of the loop; the states 1, 3 and 5 set their pointer and fall through.
creg_step : CregState → ℕ → Pieces → Pieces
unfolding in_first in_second in_third
creg_step find_colon c p = if c == b':' then record p { at = find_p1 } else p
creg_step find_p1 c p = if c == b' ' then p else in_first c (record p { p1 = some [] })
creg_step in_p1 c p = in_first c p
creg_step start_p2 c p = in_second c (record p { p2 = some [] })
creg_step in_p2 c p = in_second c p
creg_step find_p3 c p = if c == b' ' then p else in_third c (record p { p3 = some [] })
creg_step in_p3 c p = in_third c p
creg_step find_p4 c p = if c == b' ' then p else record p { at = in_p4; p4 = some (c ∷ []) }
creg_step in_p4 c p = record p { p4 = grown p.p4 c }

pub creg_loop : Bytes → Pieces → Pieces
unfolding creg_step
creg_loop [] p = p
creg_loop (c ∷ cs) p = creg_loop cs (creg_step p.at c p)

abbrev no_pieces : Pieces
no_pieces = record { at = find_colon; p1 = none; p2 = none; p3 = none; p4 = none }

-- The result and what is stored through the pointers.
pub record Creg : Type 0 where
  pub ret : ℤ
  pub gsm_reg : Bool
  pub gsm_reg_status : ℤ
  pub lac : Option Bytes
  pub ci : Option Bytes

abbrev creg_failed : Creg
creg_failed = record {
  ret = negsuc 0;
  gsm_reg = false;
  gsm_reg_status = negsuc 0;
  lac = none;
  ci = none;
}

-- `state < 2`
before_p1 : CregState → Bool
before_p1 find_colon = true
before_p1 find_p1 = true
before_p1 _ = false

-- `p1 = p2` where p2 stands alone, or where all stand.
status_text : Pieces → Option Bytes
status_text p = elim p.p2 [
  | none ↦ p.p1
  | some s ↦ elim p.p3 [
    | none ↦ elim p.p4 [ none ↦ some s | some _ ↦ p.p1 ]
    | some _ ↦ elim p.p4 [ none ↦ p.p1 | some _ ↦ some s ]
  ]
]

lac_ci : Pieces → Option Bytes × Option Bytes
lac_ci p = elim p.p3 [
  | none ↦ (none, none)
  | some area ↦ elim p.p4 [
    | some cell ↦ (some area, some cell)
    | none ↦ elim p.p2 [ none ↦ (none, none) | some first ↦ (some first, some area) ]
  ]
]

creg_status : Env → Option Bytes → Option ℤ
creg_status env none = some (negsuc 0)
creg_status env (some s) =
    let (v, read) = strtol s in
    let status = int_of_long v in
    if eq_ℤ status (pos 0) && (env.sets_einval && not read) then none else some status

creg_result : Option ℤ → Option Bytes × Option Bytes → Creg
creg_result none places = creg_failed
creg_result (some v) (lac, ci) = record {
  ret = pos 0;
  gsm_reg = eq_ℤ v (pos 1) || eq_ℤ v (pos 5);
  gsm_reg_status = v;
  lac = lac;
  ci = ci;
}

unfoldable pub at_parse_creg : Env → Bytes → Creg
unfolding creg_loop before_p1 status_text lac_ci creg_status creg_result strtol
at_parse_creg env str =
    let p = creg_loop str no_pieces in
    if before_p1 p.at then creg_failed else creg_result (creg_status env (status_text p)) (lac_ci p)
