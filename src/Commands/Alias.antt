-- ===== src/Commands/Alias.antt =====
-- src/command.c: `alias_substitute` against the text with every `@` replaced at once.
use docker_chessd.Prelude.{
  ℕ, suc, ◌+◌, ◌*◌, ◌≡◌, ◌≢◌, ◌≤◌, refl, sym, ap, ◌∙◌, inl, inr, true, false, ◌==◌, if◌then◌else◌,
  Option, none, some, List, [], ◌∷◌, length, drop, any, count_if, find_index, map_suc, arith,
  Bool-cases, ==_iff,
}
use docker_chessd.Prelude.Text.{skip_space, same_text, same_text_iff}
use docker_chessd.Commands.{
  AliasType, alias_lookup, alias_name, is_at, strchr, substitute, join, expand_alias, use_alias,
  alias_substitute,
}
use docker_chessd.Commands.Fill.{fill, append_nil, no_at, Filled, substitute_lem, length-fill}

-- An alias with what replaces its `@`, or with the rest of the line behind it.
unfoldable pub expansion : List ℕ → List ℕ → List ℕ
unfolding fill
expansion alias com_str = if any is_at alias then fill com_str alias else join alias com_str

any_index :
    (s : List ℕ) → (strchr s ≡ none → any is_at s ≡ false) × (strchr s ≢ none → any is_at s ≡ true)
any_index [] = ((λ e. refl), (λ e. absurd (e refl)))
any_index (c ∷ s) = elim (Bool-cases (is_at c)) [
  | inl t ↦ rw (t, find_index, any) ((λ e. cc e), (λ e. refl))
  | inr t ↦ rw (t, find_index, any) (later (find_index is_at s) (any_index s).0 (any_index s).1)
]
  where
    later :
        (o : Option ℕ)
        → (o ≡ none → any is_at s ≡ false)
        → (o ≢ none → any is_at s ≡ true)
        → (map_suc o ≡ none → any is_at s ≡ false) × (map_suc o ≢ none → any is_at s ≡ true)
    later none f g = ((λ e. f refl), (λ e. absurd (e refl)))
    later (some k) f g = ((λ e. cc e), (λ e. g (λ q. cc q)))

join_nothing : (com_str name : List ℕ) → length com_str ≤ 0 → join name com_str ≡ name
join_nothing [] name h = refl
join_nothing (c ∷ com_str) name h = absurd (omega (arith, h))

finish :
    (com_str name : List ℕ) (r : List ℕ × ℕ)
    → Filled com_str [] name r
    → (if r.1 == 0 then join r.0 com_str else r.0) ≡ expansion name com_str
unfolding expansion
finish com_str name (s, k) (e, inl (absent, zero_offset)) =
    rw ((any_index name).0 absent, (==_iff k 0).1 zero_offset)
      (ap (λ (l : List ℕ). join l com_str) (e ∙ no_at com_str name absent))
finish com_str name (s, k) (e, inr (present, offset)) = elim (Bool-cases (k == 0)) [
  | inl z ↦
      rw ((any_index name).1 present, z)
        (join_nothing com_str s (omega (arith, offset, (==_iff k 0).0 z)) ∙ e)
  | inr z ↦ rw ((any_index name).1 present, z) e
]

expand_alias_lem : (name com_str : List ℕ) → expand_alias name com_str ≡ expansion name com_str
unfolding expand_alias
expand_alias_lem name com_str =
    finish com_str name (substitute (suc (length name)) com_str name 0)
      (substitute_lem (suc (length name)) com_str [] name (omega arith))

lone_at : (com_str : List ℕ) → expansion (b'@' ∷ []) com_str ≡ com_str
unfolding expansion fill
lone_at com_str = append_nil com_str

use_alias_lem :
    (name alias com_str : List ℕ) → use_alias name (some alias) com_str ≡ expansion alias com_str
unfolding use_alias
use_alias_lem name alias com_str = elim (Bool-cases (same_text alias (b'@' ∷ []))) [
  | inl e ↦ rw e (
      sym (
        ap (λ (a : List ℕ). expansion a com_str) ((same_text_iff alias (b'@' ∷ [])).0 e)
        ∙ lone_at com_str))
  | inr e ↦ rw e (expand_alias_lem alias com_str)
]

-- A line whose name is an alias becomes the alias with every `@` of it replaced by the rest of the line,
-- or, with no `@`, the alias and the rest behind it: `@` in the rest are left alone, and the loop ends.
pub alias_substitute-expansion :
    (aliases : List AliasType) (line alias : List ℕ)
    → alias_lookup (alias_name line) aliases ≡ some alias
    → alias_substitute aliases line
      ≡ expansion alias (skip_space (drop (length (alias_name line)) line))
unfolding alias_substitute
alias_substitute-expansion aliases line alias e =
    ap
      (λ (o : Option (List ℕ)).
        use_alias (alias_name line) o (skip_space (drop (length (alias_name line)) line)))
      e
    ∙ use_alias_lem (alias_name line) alias (skip_space (drop (length (alias_name line)) line))

any-count : (s : List ℕ) → count_if is_at s ≢ 0 → any is_at s ≡ true
any-count [] h = absurd (h refl)
any-count (c ∷ s) h = elim (Bool-cases (is_at c)) [
  | inl e ↦ rw (e, any) refl
  | inr e ↦ rw (e, any) (any-count s (rw (e, count_if) at h))
]

-- The length that an alias with `k` characters `@`, of which there is one at least, makes of a line whose
-- name it stands for: with the `k` it is the length of the alias and `k` times that of the rest. No part of
-- the code compares it with the 4096 characters of the array for the result.
pub length-alias_substitute :
    (aliases : List AliasType) (line alias : List ℕ)
    → alias_lookup (alias_name line) aliases ≡ some alias
    → count_if is_at alias ≢ 0
    → length (alias_substitute aliases line) + count_if is_at alias
      ≡ length alias
        + count_if is_at alias * length (skip_space (drop (length (alias_name line)) line))
unfolding expansion
length-alias_substitute aliases line alias e some_at =
    let rest = skip_space (drop (length (alias_name line)) line) in
    let whole : expansion alias rest ≡ fill rest alias = rw (any-count alias some_at) refl in
    ap (λ (l : List ℕ). length l + count_if is_at alias)
      (alias_substitute-expansion aliases line alias e ∙ whole)
    ∙ length-fill rest alias
