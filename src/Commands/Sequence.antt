-- ===== src/Commands/Sequence.antt =====
-- src/command.c: `process_command`, which runs the parts of a line one after the other.
use docker_chessd.Prelude.{
  ℕ, ◌≡◌, ◌≢◌, refl, ap, sym, subst, ◌∙◌, ◌⊎◌, inl, inr, true, false, ◌==◌, List, [], ◌∷◌, ◌++◌,
  keep, any, All, Bool-cases, arith,
}
use docker_chessd.Prelude.Text.{codes, skip_space}
use docker_chessd.Commands.{begins, alias_substitute}
use docker_chessd.Commands.Run.{
  Com, com_ok, is_ok, Server, one_command, substituted, run_token, unless_failed, run_tokens,
  put_first, split, is_part, process_command,
}

-- Texts with a `;` between them.
abbrev pub joined : List (List ℕ) → List ℕ
joined [] = []
joined (t ∷ []) = t
joined (t ∷ u ∷ rest) = t ++ (b';' ∷ joined (u ∷ rest))

-- The aliases of the player are put in, then those of the server.
abbrev pub aliased : {A : Type 0} → Server A → A → List ℕ → List ℕ
aliased server s line =
    alias_substitute (Server.g_alias_list server)
      (alias_substitute (Server.alias_list server s) line)

-- The texts run in their order: a blank one does nothing; any other is a command, after its blanks are
-- skipped and the aliases of the state it is run in are substituted. The first that does not return
-- COM_OK is the last.
pub data Runs {A : Type 0} (server : Server A) : List (List ℕ) → A → Com × A → Type 0 where
  all_run : (s : A) → Runs server [] s (com_ok, s)
  blank :
      (t : List ℕ) (rest : List (List ℕ)) (s : A) (r : Com × A)
      → skip_space t ≡ []
      → Runs server rest s r
      → Runs server (t ∷ rest) s r
  goes_on :
      (t : List ℕ) (rest : List (List ℕ)) (s s' : A) (r : Com × A)
      → skip_space t ≢ []
      → one_command server s (aliased server s (skip_space t)) ≡ (com_ok, s')
      → Runs server rest s' r
      → Runs server (t ∷ rest) s r
  stops :
      (t : List ℕ) (rest : List (List ℕ)) (s : A) (r : Com × A)
      → skip_space t ≢ []
      → one_command server s (aliased server s (skip_space t)) ≡ r
      → is_ok r.0 ≡ false
      → Runs server (t ∷ rest) s r

split-cons : (s : List ℕ) → (t : List ℕ) × (rest : List (List ℕ)) × (split s ≡ t ∷ rest)
unfolding split
split-cons [] = ([], [], refl)
split-cons (c ∷ s) = elim (Bool-cases (c == b';')) [
  | inl e ↦ ([], split s, rw e refl)
  | inr e ↦ let (t, rest, q) = split-cons s in (c ∷ t, rest, rw e (ap (put_first c) q))
]

joined-put_first :
    (c : ℕ) (t : List ℕ) (rest : List (List ℕ))
    → joined (put_first c (t ∷ rest)) ≡ c ∷ joined (t ∷ rest)
joined-put_first c t [] = refl
joined-put_first c t (u ∷ rest) = refl

joined-split : (s : List ℕ) → joined (split s) ≡ s
unfolding split
joined-split [] = refl
joined-split (c ∷ s) =
    let (t, rest, q) = split-cons s in
    let ih = sym (ap joined q) ∙ joined-split s in
    elim (Bool-cases (c == b';')) [
      | inl e ↦
          let w : b';' ≡ c = ground arith in rw (e, q) (ap (λ l. b';' ∷ l) ih ∙ ap (λ d. d ∷ s) w)
      | inr e ↦ rw (e, q) (joined-put_first c t rest ∙ ap (λ l. c ∷ l) ih)
    ]

-- A text without a `;`.
abbrev pub IsWhole : List ℕ → Type 0
IsWhole t = any (λ c. c == b';') t ≡ false

put_first-All :
    (c : ℕ) (l : List (List ℕ)) → (c == b';') ≡ false → All IsWhole l → All IsWhole (put_first c l)
put_first-All c [] e h = (rw (e, any) refl, tt)
put_first-All c (t ∷ rest) e h = (rw (e, any) h.0, h.1)

split-All : (s : List ℕ) → All IsWhole (split s)
unfolding split
split-All [] = (refl, tt)
split-All (c ∷ s) = elim (Bool-cases (c == b';')) [
  | inl e ↦ rw e (refl, split-All s)
  | inr e ↦ rw e (put_first-All c (split s) e (split-All s))
]

com_ok_lem : (c : Com) → is_ok c ≡ true → c ≡ com_ok
com_ok_lem com_ok e = refl
com_ok_lem _ e = cc e

module _ {A : Type 0} (server : Server A) where
  -- A command, and what follows where it succeeds.
  command-Runs :
      (t : List ℕ) (rest : List (List ℕ)) (s : A) (go : A → Com × A)
      → skip_space t ≢ []
      → ((s' : A) → Runs server rest s' (go s'))
      → Runs server
          (t ∷ rest)
          s
          (unless_failed server (one_command server s (aliased server s (skip_space t))) go)
  unfolding substituted
  command-Runs t rest s go n h =
      let r = one_command server s (aliased server s (skip_space t)) in
      elim (Bool-cases (is_ok r.0)) [
        | inl e ↦ rw e (
            goes_on t rest s r.1 (go r.1) n (ap (λ (c : Com). (c, r.1)) (com_ok_lem r.0 e)) (h r.1))
        | inr e ↦ rw e (stops t rest s r n refl e)
      ]

  -- A text that is not empty, of which `u` is left when its blanks are skipped.
  token-Runs :
      (t u : List ℕ) (rest : List (List ℕ)) (s : A) (go : A → Com × A)
      → skip_space t ≡ u
      → ((s' : A) → Runs server rest s' (go s'))
      → Runs server (t ∷ rest) s (unless_failed server (run_token server s u) go)
  unfolding substituted
  token-Runs t [] rest s go e h = blank t rest s (go s) e (h s)
  token-Runs t (c ∷ u) rest s go e h =
      subst
        (λ (v : List ℕ).
          Runs server (t ∷ rest) s
            (unless_failed server (one_command server s (aliased server s v)) go))
        e (command-Runs t rest s go (λ z. cc (e, z)) h)

  tokens-Runs : (l : List (List ℕ)) (s : A) → Runs server l s (run_tokens server (keep is_part l) s)
  unfolding run_tokens skip_space
  tokens-Runs [] s = all_run s
  tokens-Runs ([] ∷ l) s = blank [] l s _ refl (tokens-Runs l s)
  tokens-Runs ((c ∷ t) ∷ l) s =
      token-Runs (c ∷ t) (skip_space (c ∷ t)) l s (run_tokens server (keep is_part l)) refl
        (λ s'. tokens-Runs l s')

-- A line that begins with `alias ` is run as one command, as it is typed. Of any other line, the text that
-- the aliases make of it is a sequence of parts with `;` between them and none within, and these are run
-- in their order, each with its own substitution of aliases, up to the first that does not return COM_OK.
pub process_command-Runs :
    {A : Type 0} (server : Server A) (line : List ℕ) (s : A)
    → ((begins line (codes "alias ") ≡ true)
        × (process_command server line s ≡ one_command server s line))
      ⊎ ((begins line (codes "alias ") ≡ false)
          × (ts : List (List ℕ)) × (aliased server s line ≡ joined ts)
          × All IsWhole ts
          × Runs server ts s (process_command server line s))
unfolding process_command substituted
process_command-Runs server line s = elim (Bool-cases (begins line (codes "alias "))) [
  | inl e ↦ inl (e, rw e refl)
  | inr e ↦
      let text = aliased server s line in
      inr (
        e,
        split text,
        sym (joined-split text),
        split-All text,
        rw e (tokens-Runs server (split text) s),
      )
]
