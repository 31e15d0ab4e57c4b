-- ===== src/Base/Pattern/Advancing.antt =====
-- The matches of a pattern that does not step back stand in order.
use Prim.Native.Char.{Char, code}
use lineleader.Base.{
  ℕ, ◌≤◌, Bool, List, [], ◌∷◌, String, All, All-append, All-map, arith, Bool-cases, inl, inr, ltb,
  ltb→ge, ◌≡◌, refl,
}
use mathlib.Core.Path.{subst}
use lineleader.Base.Pattern.{
  Cursor, Pattern, then_each, behind, one_at, one, many_at, many, some_of, append, prefixed, pure,
  Match, find_from, find_all_at, or_else, literal_by,
}

-- The matches end where they start or behind that.
abbrev pub Advances : {A : Type 0} → Pattern A → Type 0
Advances {A} p = (k : Cursor) → All (λ (m : A × Cursor). k.offset ≤ m.1.offset) (p k)

module _ {A B : Type 0} where
  then_each-All :
      (o : ℕ) (ms : List (A × Cursor)) (f : A → Pattern B)
      → All (λ (m : A × Cursor). o ≤ m.1.offset) ms
      → ((a : A) → Advances (f a))
      → All (λ (m : B × Cursor). o ≤ m.1.offset) (then_each ms f)
  unfolding then_each
  then_each-All o [] f h g = tt
  then_each-All o ((a, k) ∷ ms) f h g =
      All-append _ (f a k) (then_each ms f) (All-map _ _ (λ m l. omega arith) (f a k) (g a k))
        (then_each-All o ms f h.1 g)

pub bind-Advances :
    {A B : Type 0} (p : Pattern A) (f : A → Pattern B)
    → Advances p
    → ((a : A) → Advances (f a))
    → Advances (λ k. then_each (p k) f)
bind-Advances p f h g k = then_each-All k.offset (p k) f (h k) g

one_at-All :
    (p : ℕ → Bool) (k : Cursor) (s : String)
    → All (λ (m : String × Cursor). k.offset ≤ m.1.offset) (one_at p k s)
unfolding one_at
one_at-All p k String.[] = tt
one_at-All p k (String.◌∷◌ c s) = elim (Bool-cases (p (code c))) [
  | inl e ↦ rw (e, All) (omega arith, tt)
  | inr e ↦ rw (e, All) tt
]

pub one-Advances : (p : ℕ → Bool) → Advances (one p)
one-Advances p k = one_at-All p k k.rest

prefixed-All :
    (o : ℕ) (c : Char) (ms : List (String × Cursor))
    → All (λ (m : String × Cursor). o ≤ m.1.offset) ms
    → All (λ (m : String × Cursor). o ≤ m.1.offset) (prefixed c ms)
prefixed-All o c [] h = tt
prefixed-All o c ((t, k) ∷ ms) h = (h.0, prefixed-All o c ms h.1)

many_at-All :
    (p : ℕ → Bool) (k : Cursor) (s : String)
    → All (λ (m : String × Cursor). k.offset ≤ m.1.offset) (many_at p k s)
unfolding many_at
many_at-All p k String.[] = (omega arith, tt)
many_at-All p k (String.◌∷◌ c s) = elim (Bool-cases (p (code c))) [
  | inl e ↦
      rw (e, All)
        (All-append _ (prefixed c (many_at p (behind k c s) s)) _
          (prefixed-All k.offset c _ (
            All-map _ _ (λ m l. omega arith) (many_at p (behind k c s) s)
              (many_at-All p (behind k c s) s)))
          (omega arith, tt))
  | inr e ↦ rw (e, All) (omega arith, tt)
]

pub many-Advances : (p : ℕ → Bool) → Advances (many p)
many-Advances p k = many_at-All p k k.rest

pub pure-Advances : {A : Type 0} (a : A) → Advances (pure a)
pure-Advances a k = (omega arith, tt)

pub some_of-Advances : (p : ℕ → Bool) → Advances (some_of p)
unfolding some_of
some_of-Advances p =
    bind-Advances (one p) _ (one-Advances p)
      λ a. bind-Advances (many p) _ (many-Advances p) λ b. pure-Advances (append a b)

pub or_else-Advances :
    {A : Type 0} (p q : Pattern A) → Advances p → Advances q → Advances (or_else p q)
or_else-Advances p q f g k = All-append _ (p k) (q k) (f k) (g k)

pub literal_by-Advances : (same : ℕ → ℕ → Bool) (s : String) → Advances (literal_by same s)
unfolding literal_by
literal_by-Advances same String.[] = pure-Advances {A = String} ""
literal_by-Advances same (String.◌∷◌ d t) =
    bind-Advances (one (same (code d))) _ (one-Advances (same (code d))) λ a.
      bind-Advances (literal_by same t) _ (literal_by-Advances same t)
        λ b. pure-Advances (append a b)

-- The matches start at an offset or later, each behind the one before it.
abbrev pub Ordered : {A : Type 0} → ℕ → List (Match A) → Type 0
Ordered o [] = Unit
Ordered o (m ∷ ms) = (o ≤ m.start) × (m.start ≤ m.end) × Ordered m.end ms

module _ {A : Type 0} (p : Pattern A) (adv : Advances p) where
  found :
      (k : Cursor) (from : ℕ) (c : Char) (s : String) (ms : List (A × Cursor))
      → p (record k { rest = String.◌∷◌ c s }) ≡ ms
      → from ≤ k.offset
      → ((to : ℕ) → Ordered to (find_from p to (behind k c s) s))
      → Ordered from (elim ms [
        | [] ↦ find_from p from (behind k c s) s
        | (a, e) ∷ rest ↦
            record { value = a; start = k.offset; end = e.offset }
            ∷ find_from p e.offset (behind k c s) s
      ])
  found k from c s [] e l h = h from
  found k from c s ((a, x) ∷ ms) e l h =
      let ends : All (λ (m : A × Cursor). k.offset ≤ m.1.offset) ((a, x) ∷ ms) =
        subst (All (λ (m : A × Cursor). k.offset ≤ m.1.offset)) e
          (adv (record k { rest = String.◌∷◌ c s })) in
      (l, ends.0, h x.offset)

  pub find_from-Ordered : (from : ℕ) (k : Cursor) (s : String) → Ordered from (find_from p from k s)
  unfolding find_from
  find_from-Ordered from k String.[] = tt
  find_from-Ordered from k (String.◌∷◌ c s) = elim (Bool-cases (ltb k.offset from)) [
    | inl e ↦ rw (e, Ordered) (find_from-Ordered from (behind k c s) s)
    | inr e ↦
        rw (e, Ordered)
          (found k from c s _ refl (ltb→ge k.offset from e)
            (λ to. find_from-Ordered to (behind k c s) s))
  ]

  pub find_all_at-Ordered : (offset : ℕ) (s : String) → Ordered offset (find_all_at p offset s)
  unfolding find_all_at
  find_all_at-Ordered offset s = find_from-Ordered offset _ s
