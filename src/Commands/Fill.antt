-- ===== src/Commands/Fill.antt =====
-- src/command.c: the loop of `alias_substitute` on its text.
use docker_chessd.Prelude.{
  ℕ, zero, suc, ◌+◌, ◌*◌, ◌≡◌, ◌≢◌, ◌≤◌, ◌<◌, refl, sym, ap, subst, ◌∙◌, ◌⊎◌, inl, inr, true, false,
  if◌then◌else◌, Option, none, some, List, [], ◌∷◌, ◌++◌, length, take, drop, count_if, find_index,
  map_suc, arith, Bool-cases, length-append,
}
use docker_chessd.Commands.{is_at, strchr, replace_at, repeat_with, substitute}

-- Every `@` replaced.
unfoldable pub fill : List ℕ → List ℕ → List ℕ
fill com_str [] = []
fill com_str (c ∷ s) = let rest = fill com_str s in if is_at c then com_str ++ rest else c ∷ rest

pub append_assoc : (a b c : List ℕ) → (a ++ b) ++ c ≡ a ++ (b ++ c)
append_assoc [] b c = refl
append_assoc (x ∷ a) b c = ap (λ (l : List ℕ). x ∷ l) (append_assoc a b c)

pub append_nil : (a : List ℕ) → a ++ [] ≡ a
append_nil [] = refl
append_nil (x ∷ a) = ap (λ (l : List ℕ). x ∷ l) (append_nil a)

pub take-append : (a b : List ℕ) (n m : ℕ) → m ≡ length a + n → take m (a ++ b) ≡ a ++ take n b
take-append [] b n m e = ap (λ (k : ℕ). take k b) (omega (arith, e))
take-append (x ∷ a) b n zero e = absurd (omega (arith, e))
take-append (x ∷ a) b n (suc m) e =
    ap (λ (l : List ℕ). x ∷ l) (take-append a b n m (omega (arith, e)))

pub drop-append : (a b : List ℕ) (n m : ℕ) → m ≡ length a + n → drop m (a ++ b) ≡ drop n b
drop-append [] b n m e = ap (λ (k : ℕ). drop k b) (omega (arith, e))
drop-append (x ∷ a) b n zero e = absurd (omega (arith, e))
drop-append (x ∷ a) b n (suc m) e = drop-append a b n m (omega (arith, e))

-- What stands before the first `@` and behind it.
abbrev pub SplitAt : List ℕ → List ℕ → ℕ → Type 0
SplitAt com_str s k =
    (pre : List ℕ) × (post : List ℕ) × (length pre ≡ k)
    × (take k s ≡ pre)
    × (drop (suc k) s ≡ post)
    × (fill com_str s ≡ pre ++ (com_str ++ fill com_str post))
    × (length s ≡ k + 1 + length post)

pub strchr_split : (com_str s : List ℕ) (k : ℕ) → strchr s ≡ some k → SplitAt com_str s k
unfolding fill
strchr_split com_str [] k e = cc
strchr_split com_str (c ∷ s) k e = elim (Bool-cases (is_at c)) [
  | inl t ↦ at_head k t (rw (t, find_index) at e)
  | inr t ↦ later k (find_index is_at s) t (strchr_split com_str s) (rw (t, find_index) at e)
]
  where
    at_head : (k : ℕ) → is_at c ≡ true → some 0 ≡ some k → SplitAt com_str (c ∷ s) k
    at_head zero t q = ([], s, refl, refl, refl, rw t refl, omega arith)
    at_head (suc k) t q = cc

    later :
        (k : ℕ) (o : Option ℕ)
        → is_at c ≡ false
        → ((j : ℕ) → o ≡ some j → SplitAt com_str s j)
        → map_suc o ≡ some k
        → SplitAt com_str (c ∷ s) k
    later k none t ih q = cc
    later zero (some j) t ih q = cc
    later (suc k) (some j) t ih q =
        let (pre, post, n, a, b, f, m) = ih k (cc) in
        (
          c ∷ pre,
          post,
          ap suc n,
          ap (λ (l : List ℕ). c ∷ l) a,
          b,
          rw t (ap (λ (l : List ℕ). c ∷ l) f),
          omega (arith, m),
        )

pub no_at : (com_str s : List ℕ) → strchr s ≡ none → fill com_str s ≡ s
unfolding fill
no_at com_str [] e = refl
no_at com_str (c ∷ s) e = elim (Bool-cases (is_at c)) [
  | inl t ↦ let q = rw (t, find_index) at e in cc q
  | inr t ↦ rw t (
      ap (λ (l : List ℕ). c ∷ l)
        (no_at com_str s (later (find_index is_at s) (rw (t, find_index) at e))))
]
  where
    later : (o : Option ℕ) → map_suc o ≡ none → o ≡ none
    later none q = refl
    later (some j) q = cc

pub drop-done : (a b : List ℕ) → drop (length a) (a ++ b) ≡ b
drop-done [] b = refl
drop-done (x ∷ a) b = drop-done a b

-- A round of the loop, from what is done and what is still to do.
pub round :
    (n k : ℕ) (com_str done todo : List ℕ)
    → strchr todo ≡ some k
    → (pre post : List ℕ) → length pre ≡ k
    → take k todo ≡ pre
    → drop (suc k) todo ≡ post
    → substitute (suc n) com_str (done ++ todo) (length done)
      ≡ substitute n com_str
          ((done ++ (pre ++ com_str)) ++ post)
          (length (done ++ (pre ++ com_str)))
unfolding substitute replace_at
round n k com_str done todo e pre post m a b =
    ap
      (λ (o : Option ℕ).
        repeat_with (λ name2 offset2. substitute n com_str name2 offset2)
          (done ++ todo, length done) (replace_at com_str (done ++ todo) (length done) o))
      (ap strchr (drop-done done todo) ∙ e)
    ∙ ap (λ (name : List ℕ). substitute n com_str name (length done + k + length com_str)) text
    ∙ ap (substitute n com_str ((done ++ (pre ++ com_str)) ++ post)) offset
  where
    offset : length done + k + length com_str ≡ length (done ++ (pre ++ com_str))
    offset = omega (arith, m, length-append done (pre ++ com_str), length-append pre com_str)

    before : take (length done + k) (done ++ todo) ≡ done ++ pre
    before = take-append done todo k _ refl ∙ ap (λ (l : List ℕ). done ++ l) a

    text_behind : drop (length done + k + 1) (done ++ todo) ≡ post
    text_behind = drop-append done todo (suc k) _ (omega arith) ∙ b

    text :
        take (length done + k) (done ++ todo)
          ++ (com_str ++ drop (length done + k + 1) (done ++ todo))
        ≡ (done ++ (pre ++ com_str)) ++ post
    text =
        ap (λ (l : List ℕ). l ++ (com_str ++ drop (length done + k + 1) (done ++ todo))) before
        ∙ ap (λ (l : List ℕ). (done ++ pre) ++ (com_str ++ l)) text_behind
        ∙ sym (append_assoc (done ++ pre) com_str post)
        ∙ ap (λ (l : List ℕ). l ++ post) (append_assoc done pre com_str)

-- What the loop makes of `done ++ todo`, where `r` is its result.
abbrev pub Filled : List ℕ → List ℕ → List ℕ → List ℕ × ℕ → Type 0
Filled com_str done todo r =
    (r.0 ≡ done ++ fill com_str todo)
    × (((strchr todo ≡ none) × (r.1 ≡ length done))
        ⊎ ((strchr todo ≢ none) × (length done + length com_str ≤ r.1)))

pub at_least :
    (com_str done todo : List ℕ) (r : List ℕ × ℕ) → Filled com_str done todo r → length done ≤ r.1
at_least com_str done todo r (e, inl h) = omega (arith, h.1)
at_least com_str done todo r (e, inr h) = omega (arith, h.1)

pub substitute_lem :
    (n : ℕ) (com_str done todo : List ℕ)
    → length todo < n
    → Filled com_str done todo (substitute n com_str (done ++ todo) (length done))
unfolding substitute replace_at
substitute_lem zero com_str done todo h = absurd (omega (arith, h))
substitute_lem (suc n) com_str done todo h =
    at (strchr todo) refl (λ pre post m. substitute_lem n com_str (done ++ (pre ++ com_str)) post m)
  where
    at :
        (o : Option ℕ)
        → strchr todo ≡ o
        → ((pre post : List ℕ)
            → length post < n
            → Filled com_str (done ++ (pre ++ com_str)) post (
                substitute n com_str
                  ((done ++ (pre ++ com_str)) ++ post)
                  (length (done ++ (pre ++ com_str)))))
        → Filled com_str done todo (substitute (suc n) com_str (done ++ todo) (length done))
    at none e ih =
        let stop : substitute (suc n) com_str (done ++ todo) (length done)
            ≡ (done ++ todo, length done) =
          ap
            (λ (o : Option ℕ).
              repeat_with (λ name2 offset2. substitute n com_str name2 offset2)
                (done ++ todo, length done) (replace_at com_str (done ++ todo) (length done) o))
            (ap strchr (drop-done done todo) ∙ e) in
        subst (Filled com_str done todo) (sym stop)
          (ap (λ (l : List ℕ). done ++ l) (sym (no_at com_str todo e)), inl (e, refl))
    at (some k) e ih =
        let (pre, post, m, a, b, f, size) = strchr_split com_str todo k e in
        let again = ih pre post (omega (arith, size, h)) in
        subst (Filled com_str done todo) (sym (round n k com_str done todo e pre post m a b)) (
          again.0
              ∙ append_assoc done (pre ++ com_str) (fill com_str post)
              ∙ ap (λ (l : List ℕ). done ++ l)
                  (append_assoc pre com_str (fill com_str post) ∙ sym f),
          inr (
            (λ q. cc (q, e)),
            omega (
              arith,
              at_least com_str (done ++ (pre ++ com_str)) post _ again,
              length-append done (pre ++ com_str),
              length-append pre com_str,
            ),
          ),
        )

pub length-fill :
    (com_str s : List ℕ)
    → length (fill com_str s) + count_if is_at s ≡ length s + count_if is_at s * length com_str
unfolding fill
length-fill com_str [] = omega arith
length-fill com_str (c ∷ s) = elim (Bool-cases (is_at c)) [
  | inl e ↦ rw e (
      omega (
        arith,
        length-append com_str (fill com_str s),
        length-fill com_str s,
        one_more (count_if is_at s) (length com_str),
      ))
  | inr e ↦ rw e (omega (arith, length-fill com_str s))
]
  where
    one_more : (n m : ℕ) → suc n * m ≡ m + n * m
    one_more n m = grind arith
