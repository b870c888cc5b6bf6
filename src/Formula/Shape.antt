-- ===== src/Formula/Shape.antt =====
-- src/formula.c: what the errors of a formula depend on.
use docker_chessd.Prelude.{
  ℕ, ◌-◌, ◌<◌, ◌≡◌, refl, subst, inl, inr, Bool, true, false, ◌==◌, if◌then◌else◌, Option-cases,
  List, [], ◌∷◌, Option, none, some, arith,
}
use docker_chessd.Prelude.Int.{ℤ, pos}
use docker_chessd.Prelude.Text.{codes, skip_space}
use docker_chessd.Formula.{
  move_index_past_string, first_text, optype_none, optype_paren, optype_unary, Variable, mymaxtime,
  maxtime, variables,
}
use docker_chessd.Formula.Eval.{
  World, Terms, Checker, Lower, Outcome, ran_out, trapped, failed, value, and_then, close_paren,
  in_parens, get_number_inside_parens, timed, referred, clause_reference, named_variable,
  found_variable, var_to_token, read_digits, minutes, number, unary, scan_for_number,
}

module _ (ok : Bool) where
  -- The same error, or values with the same text left; with `ok`, either may have been stopped.
  abbrev pub Alike : Outcome → Outcome → Type 0
  Alike trapped b = ok ≡ true
  Alike ran_out trapped = ok ≡ true
  Alike (failed e) trapped = ok ≡ true
  Alike (value v s) trapped = ok ≡ true
  Alike ran_out ran_out = Unit
  Alike (failed e) (failed f) = e ≡ f
  Alike (value v s) (value w t) = s ≡ t
  Alike _ _ = ⊥

  -- Both have an error, or both have a value.
  abbrev pub EndAlike : Outcome → Outcome → Type 0
  EndAlike trapped b = ok ≡ true
  EndAlike ran_out trapped = ok ≡ true
  EndAlike (failed e) trapped = ok ≡ true
  EndAlike (value v s) trapped = ok ≡ true
  EndAlike ran_out ran_out = Unit
  EndAlike (failed e) (failed f) = Unit
  EndAlike (value v s) (value w t) = Unit
  EndAlike _ _ = ⊥

  pub trapped_right : (a : Outcome) → ok ≡ true → Alike a trapped
  trapped_right trapped h = h
  trapped_right ran_out h = h
  trapped_right (failed e) h = h
  trapped_right (value v s) h = h

  pub Alike-EndAlike : (a b : Outcome) → Alike a b → EndAlike a b
  Alike-EndAlike trapped b h = h
  Alike-EndAlike ran_out trapped h = h
  Alike-EndAlike (failed e) trapped h = h
  Alike-EndAlike (value v s) trapped h = h
  Alike-EndAlike ran_out ran_out h = tt
  Alike-EndAlike (failed e) (failed f) h = tt
  Alike-EndAlike (value v s) (value w t) h = tt
  Alike-EndAlike ran_out (failed f) h = h
  Alike-EndAlike ran_out (value w t) h = h
  Alike-EndAlike (failed e) ran_out h = h
  Alike-EndAlike (failed e) (value w t) h = h
  Alike-EndAlike (value v s) ran_out h = h
  Alike-EndAlike (value v s) (failed f) h = h

  pub Alike-and_then :
      (a b : Outcome) (k j : ℤ → List ℕ → Outcome)
      → Alike a b
      → ((v w : ℤ) (s : List ℕ) → Alike (k v s) (j w s))
      → Alike (and_then a k) (and_then b j)
  Alike-and_then trapped b k j h l = h
  Alike-and_then ran_out trapped k j h l = h
  Alike-and_then (failed e) trapped k j h l = h
  Alike-and_then (value v s) trapped k j h l = trapped_right (k v s) h
  Alike-and_then ran_out ran_out k j h l = tt
  Alike-and_then (failed e) (failed f) k j h l = h
  Alike-and_then (value v s) (value w t) k j h l = subst (λ x. Alike (k v s) (j w x)) h (l v w s)
  Alike-and_then ran_out (failed f) k j h l = absurd h
  Alike-and_then ran_out (value w t) k j h l = absurd h
  Alike-and_then (failed e) ran_out k j h l = absurd h
  Alike-and_then (failed e) (value w t) k j h l = absurd h
  Alike-and_then (value v s) ran_out k j h l = absurd h
  Alike-and_then (value v s) (failed f) k j h l = absurd h

  Alike-timed : (a b : Outcome) (f k : ℤ → ℤ) → Alike a b → Alike (timed a f) (timed b k)
  Alike-timed trapped b f k h = h
  Alike-timed ran_out trapped f k h = h
  Alike-timed (failed e) trapped f k h = h
  Alike-timed (value v s) trapped f k h = h
  Alike-timed ran_out ran_out f k h = tt
  Alike-timed (failed e) (failed e') f k h = refl
  Alike-timed (value v s) (value w t) f k h = h
  Alike-timed ran_out (failed e') f k h = h
  Alike-timed ran_out (value w t) f k h = h
  Alike-timed (failed e) ran_out f k h = h
  Alike-timed (failed e) (value w t) f k h = h
  Alike-timed (value v s) ran_out f k h = h
  Alike-timed (value v s) (failed e') f k h = h

  Alike-referred : (a b : Outcome) (s : List ℕ) → EndAlike a b → Alike (referred a s) (referred b s)
  Alike-referred trapped b s h = h
  Alike-referred ran_out trapped s h = h
  Alike-referred (failed e) trapped s h = h
  Alike-referred (value v r) trapped s h = h
  Alike-referred ran_out ran_out s h = tt
  Alike-referred (failed e) (failed f) s h = refl
  Alike-referred (value v r) (value w t) s h = refl
  Alike-referred ran_out (failed f) s h = h
  Alike-referred ran_out (value w t) s h = h
  Alike-referred (failed e) ran_out s h = h
  Alike-referred (failed e) (value w t) s h = h
  Alike-referred (value v r) ran_out s h = h
  Alike-referred (value v r) (failed f) s h = h

  pub Alike-if :
      (t : Bool) (a b c d : Outcome)
      → Alike a c
      → Alike b d
      → Alike (if t then a else b) (if t then c else d)
  Alike-if true a b c d h k = h
  Alike-if false a b c d h k = k

  Alike-unary : (c : ℕ) (s : List ℕ) (a b : Outcome) → Alike a b → Alike (unary c s a) (unary c s b)
  unfolding unary
  Alike-unary c [] a b h = Alike-and_then a b _ _ h (λ v w t. refl)
  Alike-unary c (d ∷ s) a b h =
      Alike-if (c == d) _ _ _ _ refl (Alike-and_then a b _ _ h (λ v w t. refl))

  Alike-close_paren : (v x : ℤ) (s : List ℕ) → Alike (close_paren v s) (close_paren x s)
  unfolding close_paren
  Alike-close_paren v x s = elim (Option-cases (move_index_past_string s (codes ")"))) [
    | inl h ↦ rw h refl
    | inr (r, h) ↦ rw h refl
  ]

  Alike-minutes : (v : ℤ) (s : List ℕ) → Alike (minutes v s) (minutes v s)
  unfolding minutes
  Alike-minutes v s = elim (Option-cases (move_index_past_string s (codes "minutes"))) [
    | inl h ↦ rw h refl
    | inr (r, h) ↦ rw h refl
  ]

  Alike-number : (s : List ℕ) → Alike (number s) (number s)
  unfolding number
  Alike-number s = let d = read_digits (pos 0) s in Alike-minutes d.0 (skip_space d.1)

  -- Values are asked for only where a stop is allowed.
  abbrev pub Covered : Bool → Type 0
  Covered e = e ≡ true → ok ≡ true

  -- Calls of `CheckFormula` on the same texts, with values or without, and on lower clauses.
  abbrev pub AlikeCheckers : Checker → Checker → Type 0
  AlikeCheckers check check' =
      (s : List ℕ) (op_type : ℕ) (e e' : Bool)
      → Covered e
      → Covered e'
      → Alike (check s op_type e) (check' s op_type e')

  abbrev pub AlikeLower : Lower → Lower → ℕ → Type 0
  AlikeLower lower lower' clause =
      (c : ℕ) (e e' : Bool)
      → Covered e
      → Covered e'
      → c < clause
      → EndAlike (lower c e) (lower' c e')

  -- Two evaluations of the same text, for any players and games and with values or without.
  module _ (w w' : World) (g g' : Terms) (check check' : Checker)
      (alike : AlikeCheckers check check') (e e' : Bool) (ce : Covered e) (ce' : Covered e') where
    Alike-in_parens : (o : Option (List ℕ)) → Alike (in_parens check o e) (in_parens check' o e')
    unfolding in_parens
    Alike-in_parens none = refl
    Alike-in_parens (some r) =
        Alike-and_then (check r optype_paren e) (check' r optype_paren e') close_paren close_paren
          (alike r optype_paren e e' ce ce') Alike-close_paren

    Alike-get_number_inside_parens :
        (s : List ℕ)
        → Alike (get_number_inside_parens check s e) (get_number_inside_parens check' s e')
    unfolding get_number_inside_parens
    Alike-get_number_inside_parens s =
        Alike-in_parens (move_index_past_string (skip_space s) (codes "("))

    Alike-named_variable :
        (v : Variable) (s : List ℕ)
        → Alike (named_variable w g check v s e) (named_variable w' g' check' v s e')
    unfolding named_variable
    Alike-named_variable mymaxtime s = Alike-timed _ _ _ _ (Alike-get_number_inside_parens s)
    Alike-named_variable maxtime s = Alike-timed _ _ _ _ (Alike-get_number_inside_parens s)
    Alike-named_variable _ s = refl

    module _ (lower lower' : Lower) (clause : ℕ) (below : AlikeLower lower lower' clause) where
      Alike-clause_reference :
          (s : List ℕ)
          → Alike (clause_reference lower clause s e) (clause_reference lower' clause s e')
      unfolding clause_reference
      Alike-clause_reference [] = refl
      Alike-clause_reference (c ∷ []) = refl
      Alike-clause_reference (c ∷ d ∷ s) =
          let h : d - b'1' < clause
              → Alike (referred (lower (d - b'1') e) s) (referred (lower' (d - b'1') e') s) =
            λ l.
              Alike-referred (lower (d - b'1') e) (lower' (d - b'1') e') s
                (below (d - b'1') e e' ce ce' l) in
          ground (arith, h)

      Alike-found_variable :
          (s : List ℕ) (o : Option (Variable × List ℕ))
          → Alike
              (found_variable w g check lower clause s o e)
              (found_variable w' g' check' lower' clause s o e')
      unfolding found_variable
      Alike-found_variable s none = Alike-clause_reference s
      Alike-found_variable s (some (v, r)) = Alike-named_variable v r

      pub Alike-scan_for_number :
          (s : List ℕ) (op_type : ℕ)
          → Alike
              (scan_for_number w g check lower clause s op_type e)
              (scan_for_number w' g' check' lower' clause s op_type e')
      unfolding scan_for_number var_to_token
      Alike-scan_for_number [] op_type = Alike-if (op_type == optype_none) _ _ _ _ refl refl
      Alike-scan_for_number (c ∷ s) op_type =
          let same = Alike-scan_for_number s op_type in
          let ps = Alike-get_number_inside_parens (c ∷ s) in
          let us = Alike-unary c s _ _ (Alike-scan_for_number s optype_unary) in
          let ns = Alike-number (c ∷ s) in
          let vs = Alike-found_variable (c ∷ s) (first_text variables (c ∷ s)) in
          ground (arith, same, ps, us, ns, vs)
