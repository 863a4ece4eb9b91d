-- ===== src/LinkedList/Ring.antt =====
-- Rings: the shape that the list operations keep, by the sequence of nodes that it goes through.
use blueman_artifact.Prelude.{ℕ, ◌≡◌, ◌≢◌, sym, ◌∙◌, List, [], ◌∷◌, ◌++◌, arith}
use blueman_artifact.LinkedList.{Links, update, set_next, set_prev}

-- `next` leads from `a` through `xs` to `b`, and `prev` leads back.
abbrev pub Linked : Links → ℕ → List ℕ → ℕ → Type 0
Linked h a [] b = (h.next a ≡ b) × (h.prev b ≡ a)
Linked h a (x ∷ xs) b = (h.next a ≡ x) × (h.prev x ≡ a) × Linked h x xs b

abbrev pub Avoids : ℕ → List ℕ → Type 0
Avoids n [] = Unit
Avoids n (x ∷ xs) = (n ≢ x) × Avoids n xs

abbrev pub Distinct : List ℕ → Type 0
Distinct [] = Unit
Distinct (x ∷ xs) = Avoids x xs × Distinct xs

pub record IsRing (h : Links) (head : ℕ) (xs : List ℕ) : Type 0 where
  pub linked : Linked h head xs head
  pub distinct : Distinct (head ∷ xs)

-- The last of `a ∷ xs`, and the first of `xs` followed by `b`.
abbrev pub last : ℕ → List ℕ → ℕ
last a [] = a
last a (x ∷ xs) = last x xs

abbrev pub first : List ℕ → ℕ → ℕ
first [] b = b
first (x ∷ xs) b = x

pub Linked-first : (h : Links) (a b : ℕ) (xs : List ℕ) → Linked h a xs b → h.next a ≡ first xs b
Linked-first h a b [] l = l.0
Linked-first h a b (x ∷ xs) l = l.0

pub Linked-last : (h : Links) (a b : ℕ) (xs : List ℕ) → Linked h a xs b → h.prev b ≡ last a xs
Linked-last h a b [] l = l.1
Linked-last h a b (x ∷ xs) (_, _, l) = Linked-last h x b xs l

pub Avoids-last : (n a : ℕ) (xs : List ℕ) → Avoids n (a ∷ xs) → n ≢ last a xs
Avoids-last n a [] (e, _) = e
Avoids-last n a (x ∷ xs) (_, v) = Avoids-last n x xs v

pub Avoids-first : (n b : ℕ) (xs : List ℕ) → Avoids n xs → n ≢ b → n ≢ first xs b
Avoids-first n b [] v e = e
Avoids-first n b (x ∷ xs) v e = v.0

pub update_self : (f : ℕ → ℕ) (a v : ℕ) → update f a v a ≡ v
update_self f a v = ground arith

pub update_other : (f : ℕ → ℕ) (a v x : ℕ) → x ≢ a → update f a v x ≡ f x
update_other f a v x e = ground arith

-- Two heaps that agree on the fields that a path reads: `next` of all its nodes but the end,
-- `prev` of all but the start.
pub Linked-congr :
    (h k : Links) (a b c d : ℕ) (xs : List ℕ)
    → ((x : ℕ) → x ≢ c → k.next x ≡ h.next x)
    → ((x : ℕ) → x ≢ d → k.prev x ≡ h.prev x)
    → Avoids c (a ∷ xs)
    → Avoids d xs
    → d ≢ b
    → Linked h a xs b
    → Linked k a xs b
Linked-congr h k a b c d [] n p (e, _) w db (q, r) =
    (n a (λ z. e (sym z)) ∙ q, p b (λ z. db (sym z)) ∙ r)
Linked-congr h k a b c d (x ∷ xs) n p (e, v) (dx, w) db (q, r, l) =
    (n a (λ z. e (sym z)) ∙ q, p x (λ z. dx (sym z)) ∙ r, Linked-congr h k x b c d xs n p v w db l)

pub Linked-set_next :
    (h : Links) (c v a b : ℕ) (xs : List ℕ)
    → Avoids c (a ∷ xs)
    → Linked h a xs b
    → Linked (set_next c v h) a xs b
Linked-set_next h c v a b [] (e, _) (q, r) = (update_other h.next c v a (λ z. e (sym z)) ∙ q, r)
Linked-set_next h c v a b (x ∷ xs) (e, w) (q, r, l) =
    (update_other h.next c v a (λ z. e (sym z)) ∙ q, r, Linked-set_next h c v x b xs w l)

pub Linked-set_prev :
    (h : Links) (c v a b : ℕ) (xs : List ℕ)
    → Avoids c xs
    → c ≢ b
    → Linked h a xs b
    → Linked (set_prev c v h) a xs b
Linked-set_prev h c v a b [] w e (q, r) = (q, update_other h.prev c v b (λ z. e (sym z)) ∙ r)
Linked-set_prev h c v a b (x ∷ xs) (d, w) e (q, r, l) =
    (q, update_other h.prev c v x (λ z. d (sym z)) ∙ r, Linked-set_prev h c v x b xs w e l)

-- A path cut at a node.
pub Linked-split :
    (h : Links) (a b c : ℕ) (xs ys : List ℕ)
    → Linked h a (xs ++ (c ∷ ys)) b
    → Linked h a xs c × Linked h c ys b
Linked-split h a b c [] ys (n, p, l) = ((n, p), l)
Linked-split h a b c (x ∷ xs) ys (n, p, l) =
    let q = Linked-split h x b c xs ys l in ((n, p, q.0), q.1)

pub Avoids-split : (n : ℕ) (xs ys : List ℕ) → Avoids n (xs ++ ys) → Avoids n xs × Avoids n ys
Avoids-split n [] ys v = (tt, v)
Avoids-split n (x ∷ xs) ys (e, v) = let q = Avoids-split n xs ys v in ((e, q.0), q.1)

pub Avoids-join : (n : ℕ) (xs ys : List ℕ) → Avoids n xs → Avoids n ys → Avoids n (xs ++ ys)
Avoids-join n [] ys v w = w
Avoids-join n (x ∷ xs) ys (e, v) w = (e, Avoids-join n xs ys v w)

pub Distinct-snoc : (n : ℕ) (xs : List ℕ) → Distinct xs → Avoids n xs → Distinct (xs ++ (n ∷ []))
Distinct-snoc n [] d v = (tt, tt)
Distinct-snoc n (x ∷ xs) (e, d) (v, w) =
    (Avoids-join x xs (n ∷ []) e ((λ z. v (sym z)), tt), Distinct-snoc n xs d w)

-- The node of a list without repetitions is in no other place of it.
pub Distinct-split :
    (n : ℕ) (xs ys : List ℕ) → Distinct (xs ++ (n ∷ ys)) → Distinct (xs ++ ys) × Avoids n (xs ++ ys)
Distinct-split n [] ys (v, d) = (d, v)
Distinct-split n (x ∷ xs) ys (v, d) =
    let q = Distinct-split n xs ys d in
    let w = Avoids-split x xs (n ∷ ys) v in
    ((Avoids-join x xs ys w.0 w.1.1, q.0), ((λ z. w.1.0 (sym z)), q.1))
