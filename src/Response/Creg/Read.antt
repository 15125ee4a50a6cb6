-- ===== src/Response/Creg/Read.antt =====
-- What `at_parse_creg` reads of the lines that a modem sends: `+CREG:` with an optional number, the
-- status, and an optional area and cell.
use yate_datacard.Env.{Env}
use yate_datacard.Libc.Scan.{strtol}
use yate_datacard.Prelude.{
  All, Bool, Bytes, Option, [], ap, append-nil, append_assoc, arith, codes, eq_ℤ, false,
  if◌then◌else◌, int_of_long, none, not, pos, refl, some, sym, true, ℕ, ℤ, ◌&&◌, ◌++◌, ◌==◌, ◌||◌,
  ◌∙◌, ◌∷◌, ◌≡◌,
}
use yate_datacard.Response.Creg.{
  Creg, CregState, Pieces, at_parse_creg, before_p1, creg_failed, creg_loop, creg_result,
  creg_status, creg_step, find_p1, find_p3, in_first, in_p1, in_p2, in_p3, in_p4, in_second,
  in_third, lac_ci, no_pieces, start_p2, status_text,
}

abbrev pub NoComma : Bytes → Type 0
NoComma = All (λ c. (c == b',') ≡ false)

-- Some characters without a comma, the first of them no space.
abbrev pub IsField : Bytes → Type 0
IsField [] = ⊥
IsField (c ∷ cs) = ((c == b' ') ≡ false) × ((c == b',') ≡ false) × NoComma cs

abbrev pieces_of : CregState → Bytes → Option Bytes → Option Bytes → Option Bytes → Pieces
pieces_of state one two third fourth = record {
  at = state;
  p1 = some one;
  p2 = two;
  p3 = third;
  p4 = fourth;
}

in_p1_step :
    (s : Bytes) (c : ℕ)
    → (c == b',') ≡ false
    → creg_step in_p1 c (pieces_of in_p1 s none none none)
      ≡ pieces_of in_p1 (s ++ c ∷ []) none none none
unfolding creg_step in_first
in_p1_step s c isnt = rw isnt refl

in_p1_loop :
    (s cs rest : Bytes)
    → NoComma cs
    → creg_loop (cs ++ rest) (pieces_of in_p1 s none none none)
      ≡ creg_loop rest (pieces_of in_p1 (s ++ cs) none none none)
unfolding creg_loop
in_p1_loop s [] rest h = rw append-nil refl
in_p1_loop s (c ∷ cs) rest (isnt, h) =
    ap (creg_loop (cs ++ rest)) (in_p1_step s c isnt)
    ∙ in_p1_loop (s ++ c ∷ []) cs rest h
    ∙ rw (append_assoc s (c ∷ []) cs) refl

in_p2_step :
    (one : Bytes) (s : Bytes) (c : ℕ)
    → (c == b',') ≡ false
    → creg_step in_p2 c (pieces_of in_p2 one (some s) none none)
      ≡ pieces_of in_p2 one (some (s ++ c ∷ [])) none none
unfolding creg_step in_second
in_p2_step one s c isnt = rw isnt refl

in_p2_loop :
    (one s cs rest : Bytes)
    → NoComma cs
    → creg_loop (cs ++ rest) (pieces_of in_p2 one (some s) none none)
      ≡ creg_loop rest (pieces_of in_p2 one (some (s ++ cs)) none none)
unfolding creg_loop
in_p2_loop one s [] rest h = rw append-nil refl
in_p2_loop one s (c ∷ cs) rest (isnt, h) =
    ap (creg_loop (cs ++ rest)) (in_p2_step one s c isnt)
    ∙ in_p2_loop one (s ++ c ∷ []) cs rest h
    ∙ rw (append_assoc s (c ∷ []) cs) refl

in_p3_step :
    (one two : Bytes) (s : Bytes) (c : ℕ)
    → (c == b',') ≡ false
    → creg_step in_p3 c (pieces_of in_p3 one (some two) (some s) none)
      ≡ pieces_of in_p3 one (some two) (some (s ++ c ∷ [])) none
unfolding creg_step in_third
in_p3_step one two s c isnt = rw isnt refl

in_p3_loop :
    (one two s cs rest : Bytes)
    → NoComma cs
    → creg_loop (cs ++ rest) (pieces_of in_p3 one (some two) (some s) none)
      ≡ creg_loop rest (pieces_of in_p3 one (some two) (some (s ++ cs)) none)
unfolding creg_loop
in_p3_loop one two s [] rest h = rw append-nil refl
in_p3_loop one two s (c ∷ cs) rest (isnt, h) =
    ap (creg_loop (cs ++ rest)) (in_p3_step one two s c isnt)
    ∙ in_p3_loop one two (s ++ c ∷ []) cs rest h
    ∙ rw (append_assoc s (c ∷ []) cs) refl

in_p4_loop :
    (one two third s cs : Bytes)
    → creg_loop cs (pieces_of in_p4 one (some two) (some third) (some s))
      ≡ pieces_of in_p4 one (some two) (some third) (some (s ++ cs))
unfolding creg_loop creg_step
in_p4_loop one two third s [] = rw append-nil refl
in_p4_loop one two third s (c ∷ cs) =
    in_p4_loop one two third (s ++ c ∷ []) cs ∙ rw (append_assoc s (c ∷ []) cs) refl

find_p1_step :
    (c : ℕ)
    → (c == b' ') ≡ false
    → (c == b',') ≡ false
    → creg_step find_p1 c (record no_pieces { at = find_p1 })
      ≡ pieces_of in_p1 (c ∷ []) none none none
unfolding creg_step in_first
find_p1_step c first isnt = rw (first, isnt) refl

first_field :
    (one rest : Bytes)
    → IsField one
    → creg_loop (codes "+CREG: " ++ (one ++ rest)) no_pieces
      ≡ creg_loop rest (pieces_of in_p1 one none none none)
unfolding creg_loop creg_step in_first
first_field [] rest h = elim h [ ]
first_field (c ∷ cs) rest (first, isnt, h) =
    ap (creg_loop (cs ++ rest)) (find_p1_step c first isnt) ∙ in_p1_loop (c ∷ []) cs rest h

start_p2_step :
    (one : Bytes) (c : ℕ)
    → (c == b',') ≡ false
    → creg_step start_p2 c (pieces_of start_p2 one none none none)
      ≡ pieces_of in_p2 one (some (c ∷ [])) none none
unfolding creg_step in_second
start_p2_step one c isnt = rw isnt refl

find_p3_step :
    (one two : Bytes) (c : ℕ)
    → (c == b' ') ≡ false
    → (c == b',') ≡ false
    → creg_step find_p3 c (pieces_of find_p3 one (some two) none none)
      ≡ pieces_of in_p3 one (some two) (some (c ∷ [])) none
unfolding creg_step in_third
find_p3_step one two c first isnt = rw (first, isnt) refl

second_field :
    (one two rest : Bytes)
    → IsField two
    → creg_loop (b',' ∷ (two ++ rest)) (pieces_of in_p1 one none none none)
      ≡ creg_loop rest (pieces_of in_p2 one (some two) none none)
unfolding creg_loop creg_step in_first in_second
second_field one [] rest h = elim h [ ]
second_field one (c ∷ cs) rest (_, isnt, h) =
    ap (creg_loop (cs ++ rest)) (start_p2_step one c isnt) ∙ in_p2_loop one (c ∷ []) cs rest h

third_field :
    (one two third rest : Bytes)
    → IsField third
    → creg_loop (b',' ∷ (third ++ rest)) (pieces_of in_p2 one (some two) none none)
      ≡ creg_loop rest (pieces_of in_p3 one (some two) (some third) none)
unfolding creg_loop creg_step in_second in_third
third_field one two [] rest h = elim h [ ]
third_field one two (c ∷ cs) rest (first, isnt, h) =
    ap (creg_loop (cs ++ rest)) (find_p3_step one two c first isnt)
    ∙ in_p3_loop one two (c ∷ []) cs rest h

fourth_field :
    (one two third fourth : Bytes)
    → IsField fourth
    → creg_loop (b',' ∷ fourth) (pieces_of in_p3 one (some two) (some third) none)
      ≡ pieces_of in_p4 one (some two) (some third) (some fourth)
unfolding creg_loop creg_step in_third
fourth_field one two third [] h = elim h [ ]
fourth_field one two third (c ∷ cs) (first, isnt, h) =
    rw first (in_p4_loop one two third (c ∷ []) cs)

-- A status and perhaps a place, as a line says it, with or without the number in front.
abbrev pub creg_line : Option Bytes → Bytes → Option (Bytes × Bytes) → Bytes
creg_line none stat none = codes "+CREG: " ++ stat
creg_line (some n) stat none = codes "+CREG: " ++ (n ++ (b',' ∷ stat))
creg_line none stat (some (area, cell)) =
    codes "+CREG: " ++ (stat ++ (b',' ∷ (area ++ (b',' ∷ cell))))
creg_line (some n) stat (some (area, cell)) =
    codes "+CREG: " ++ (n ++ (b',' ∷ (stat ++ (b',' ∷ (area ++ (b',' ∷ cell))))))

abbrev pub IsPart : Option Bytes → Type 0
IsPart none = Unit
IsPart (some field) = IsField field

abbrev pub IsPlace : Option (Bytes × Bytes) → Type 0
IsPlace none = Unit
IsPlace (some (area, cell)) = IsField area × IsField cell

abbrev pub place_parts : Option (Bytes × Bytes) → Option Bytes × Option Bytes
place_parts none = (none, none)
place_parts (some (area, cell)) = (some area, some cell)

-- What is read, for a status that `strtol` reads as a number.
abbrev pub creg_read : ℤ → Option (Bytes × Bytes) → Creg
creg_read v place = record {
  ret = pos 0;
  gsm_reg = eq_ℤ v (pos 1) || eq_ℤ v (pos 5);
  gsm_reg_status = v;
  lac = (place_parts place).0;
  ci = (place_parts place).1;
}

-- The pieces of the four forms.
first_form :
    (stat : Bytes)
    → IsField stat
    → creg_loop (creg_line none stat none) no_pieces ≡ pieces_of in_p1 stat none none none
unfolding creg_loop
first_form stat h =
    ap (λ s. creg_loop (codes "+CREG: " ++ s) no_pieces) (sym (append-nil stat))
    ∙ first_field stat [] h

second_form :
    (n stat : Bytes)
    → IsField n
    → IsField stat
    → creg_loop (creg_line (some n) stat none) no_pieces ≡ pieces_of in_p2 n (some stat) none none
unfolding creg_loop
second_form n stat h k =
    first_field n (b',' ∷ stat) h
    ∙ ap (λ s. creg_loop (b',' ∷ s) (pieces_of in_p1 n none none none)) (sym (append-nil stat))
    ∙ second_field n stat [] k

third_form :
    (stat area cell : Bytes)
    → IsField stat
    → IsField area
    → IsField cell
    → creg_loop (creg_line none stat (some (area, cell))) no_pieces
      ≡ pieces_of in_p3 stat (some area) (some cell) none
unfolding creg_loop
third_form stat area cell h k l =
    first_field stat (b',' ∷ (area ++ (b',' ∷ cell))) h
    ∙ second_field stat area (b',' ∷ cell) k
    ∙ ap (λ s. creg_loop (b',' ∷ s) (pieces_of in_p2 stat (some area) none none))
        (sym (append-nil cell))
    ∙ third_field stat area cell [] l

fourth_form :
    (n stat area cell : Bytes)
    → IsField n
    → IsField stat
    → IsField area
    → IsField cell
    → creg_loop (creg_line (some n) stat (some (area, cell))) no_pieces
      ≡ pieces_of in_p4 n (some stat) (some area) (some cell)
fourth_form n stat area cell h k l m =
    first_field n (b',' ∷ (stat ++ (b',' ∷ (area ++ (b',' ∷ cell))))) h
    ∙ second_field n stat (b',' ∷ (area ++ (b',' ∷ cell))) k
    ∙ third_field n stat area (b',' ∷ cell) l
    ∙ fourth_field n stat area cell m

-- What is made of the pieces.
of_pieces : Env → Pieces → Creg
of_pieces env p =
    if before_p1 p.at then creg_failed else creg_result (creg_status env (status_text p)) (lac_ci p)

no_error : (a b : Bool) (v : ℤ) → (if a && (b && not true) then none else some v) ≡ some v
no_error a b v = ground arith

number_read :
    (env : Env) (stat : Bytes) (places : Option Bytes × Option Bytes) (v : ℤ)
    → strtol stat ≡ (v, true)
    → creg_result (creg_status env (some stat)) places ≡ creg_result (some (int_of_long v)) places
unfolding creg_status
number_read env stat places v is = rw is (
    ap (λ o. creg_result o places)
      (no_error (eq_ℤ (int_of_long v) (pos 0)) env.sets_einval (int_of_long v)))

-- The four forms of a line `+CREG:`, with or without a number in front of the status, with or
-- without an area and a cell behind it, each of some characters without a comma that start with no
-- space, and the status a number: the parser succeeds, with the number of the status cut to an int,
-- registered exactly where that is 1 or 5, and the area and the cell where the line has them.
pub at_parse_creg-creg_line :
    (env : Env) (number : Option Bytes) (stat : Bytes) (place : Option (Bytes × Bytes)) (v : ℤ)
    → IsPart number
    → IsField stat
    → IsPlace place
    → strtol stat ≡ (v, true)
    → at_parse_creg env (creg_line number stat place) ≡ creg_read (int_of_long v) place
unfolding at_parse_creg of_pieces
at_parse_creg-creg_line env none stat none v n s p is =
    ap (of_pieces env) (first_form stat s) ∙ number_read env stat _ v is
at_parse_creg-creg_line env (some num) stat none v n s p is =
    ap (of_pieces env) (second_form num stat n s) ∙ number_read env stat _ v is
at_parse_creg-creg_line env none stat (some (area, cell)) v n s (p, q) is =
    ap (of_pieces env) (third_form stat area cell s p q) ∙ number_read env stat _ v is
at_parse_creg-creg_line env (some num) stat (some (area, cell)) v n s (p, q) is =
    ap (of_pieces env) (fourth_form num stat area cell n s p q) ∙ number_read env stat _ v is
