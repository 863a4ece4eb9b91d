-- ===== src/LinkedList/Order.antt =====
-- What the list operations do to a ring, by the sequence of its nodes.
use blueman_artifact.Prelude.{
  ℕ, zero, suc, ◌+◌, ◌<◌, ◌≡◌, ◌≢◌, ◌↔◌, refl, sym, ap, ◌∙◌, arith, List, [], ◌∷◌, ◌++◌, ◌==◌, true,
  false, length, some,
}
use blueman_artifact.LinkedList.{
  Links, list_add, list_add_tail, list_del, init_list_head, list_empty, count_from, list_length,
}
use blueman_artifact.LinkedList.Ring.{
  Linked, Avoids, Distinct, IsRing, last, first, Linked-first, Linked-last, Avoids-last,
  Avoids-first, update_self, Linked-congr, Linked-set_next, Linked-set_prev, Linked-split,
  Avoids-split, Avoids-join, Distinct-snoc, Distinct-split,
}

-- Initialising a node makes it the head of an empty ring.
pub init_list_head-IsRing : (node : ℕ) (h : Links) → IsRing (init_list_head node h) node []
unfolding init_list_head
init_list_head-IsRing node h = record {
  linked = (update_self h.next node node, update_self h.prev node node);
  distinct = (tt, tt);
}

-- The path that grows at its end.
grow :
    (h k : Links) (a b node : ℕ) (xs : List ℕ)
    → k.next (last a xs) ≡ node
    → k.prev node ≡ last a xs
    → (k.next node ≡ b) × (k.prev b ≡ node)
    → ((x : ℕ) → x ≢ last a xs → x ≢ node → k.next x ≡ h.next x)
    → ((x : ℕ) → x ≢ b → x ≢ node → k.prev x ≡ h.prev x)
    → Distinct (a ∷ xs)
    → Avoids node (a ∷ xs)
    → Avoids b xs
    → Linked h a xs b
    → Linked k a (xs ++ (node ∷ [])) b
grow h k a b node [] kn kp kb n p d v w l = (kn, kp, kb)
grow h k a b node (x ∷ xs) kn kp kb n p (ax, d) (na, v) (bx, w) (q, r, l) = (
  n a (Avoids-last a x xs ax) (λ z. na (sym z)) ∙ q,
  p x (λ z. bx (sym z)) (λ z. v.0 (sym z)) ∙ r,
  grow h k x b node xs kn kp kb n p d v w l,
)

-- The path that loses a node.
cut :
    (h k : Links) (a b node : ℕ) (xs ys : List ℕ)
    → k.next (last a xs) ≡ first ys b
    → k.prev (first ys b) ≡ last a xs
    → ((x : ℕ) → x ≢ last a xs → k.next x ≡ h.next x)
    → ((x : ℕ) → x ≢ first ys b → k.prev x ≡ h.prev x)
    → Distinct (xs ++ ys)
    → Avoids a (xs ++ ys)
    → Avoids b (xs ++ ys)
    → Linked h a (xs ++ (node ∷ ys)) b
    → Linked k a (xs ++ ys) b
cut h k a b node [] [] kn kp n p d v w l = (kn, kp)
cut h k a b node [] (y ∷ ys) kn kp n p (yys, d) v w (_, _, (_, _, l)) =
    (kn, kp, Linked-congr h k y b a y ys n p v yys (λ z. w.0 (sym z)) l)
cut h k a b node (x ∷ xs) ys kn kp n p (xv, d) (ax, v) (bx, w) (q, r, l) = (
  n a (Avoids-last a x xs (ax, (Avoids-split a xs ys v).0)) ∙ q,
  p x (Avoids-first x b ys (Avoids-split x xs ys xv).1 (λ z. bx (sym z))) ∙ r,
  cut h k x b node xs ys kn kp n p d xv w l,
)

module _ (h : Links) (node head : ℕ) where
  -- `list_add` of a node outside a ring puts it first, and the ring stays a ring.
  pub list_add-IsRing :
      (xs : List ℕ)
      → IsRing h head xs
      → Avoids node (head ∷ xs)
      → IsRing (list_add node head h) head (node ∷ xs)
  unfolding list_add
  list_add-IsRing [] r (e, _) = record {
    linked = (ground arith, ground arith, (ground (arith, r.linked), ground (arith, r.linked)));
    distinct = (((λ z. e (sym z)), tt), (tt, tt));
  }
  list_add-IsRing (y ∷ ys) r (e, v) =
      let (n, p, l) = r.linked in
      let ((hy, hys), (yys, dys)) = r.distinct in
      let path : Linked (list_add node head h) y ys head =
        Linked-set_next _ head node y head ys (hy, hys)
          (Linked-set_prev _ node head y head ys v.1 e (
            Linked-set_next _ node (h.next head) y head ys v (
              Linked-set_prev h (h.next head) node y head ys (rw n yys) (λ z. hy (sym z ∙ n))
                l))) in
      record {
        linked =
            rw n (ground arith, ground (arith, v.0), (ground arith, ground (arith, v.0), path));
        distinct = (((λ z. e (sym z)), (hy, hys)), (v, (yys, dys)));
      }

  -- `list_add_tail` of a node outside a ring puts it last, and the ring stays a ring.
  pub list_add_tail-IsRing :
      (xs : List ℕ)
      → IsRing h head xs
      → Avoids node (head ∷ xs)
      → IsRing (list_add_tail node head h) head (xs ++ (node ∷ []))
  unfolding list_add_tail
  list_add_tail-IsRing xs r (e, v) =
      let tail = Linked-last h head head xs r.linked in
      let off = Avoids-last node head xs (e, v) in
      record {
        linked = rw tail (
            grow h _ head head node xs (ground arith) (ground arith) (ground arith, ground arith)
              (λ x p q. ground arith) (λ x p q. ground arith) r.distinct (e, v) r.distinct.0
              r.linked);
        distinct = Distinct-snoc node (head ∷ xs) r.distinct (e, v);
      }

  -- `list_del` of a node of a ring takes it out, keeps the order of the others, and the ring stays
  -- a ring.
  pub list_del-IsRing :
      (xs ys : List ℕ)
      → IsRing h head (xs ++ (node ∷ ys))
      → IsRing (list_del node h) head (xs ++ ys)
  unfolding list_del
  list_del-IsRing xs ys r =
      let (before, after) = Linked-split h head head node xs ys r.linked in
      let tail = Linked-last h head node xs before in
      let front = Linked-first h node head ys after in
      let (v, d) = r.distinct in
      let (rest, _) = Distinct-split node xs ys d in
      let (headxs, headys) = Avoids-split head xs (node ∷ ys) v in
      let apart = Avoids-join head xs ys headxs headys.1 in
      record {
        linked =
            rw (tail, front)
              (cut h _ head head node xs ys (ground arith) (ground arith) (λ x p. ground arith)
                (λ x p. ground arith) rest apart apart r.linked);
        distinct = (apart, rest);
      }

-- `list_empty` holds of a ring exactly if it has no node but its head.
pub list_empty-IsRing :
    (h : Links) (head : ℕ) (xs : List ℕ) → IsRing h head xs → (list_empty head h ≡ true) ↔ (xs ≡ [])
unfolding list_empty
list_empty-IsRing h head [] r = ((λ e. refl), (λ e. ground (arith, r.linked)))
list_empty-IsRing h head (x ∷ xs) r =
    ((λ e. absurd (r.distinct.0.0 (ground (arith, r.linked)))), (λ e. absurd (ground (arith, e))))

count_from-path :
    (fuel a head ret : ℕ) (xs : List ℕ) (h : Links)
    → length xs < fuel
    → Avoids head xs
    → Linked h a xs head
    → count_from fuel (h.next a) head ret h ≡ some (ret + length xs)
unfolding count_from
count_from-path zero a head ret xs h lt v l = absurd (omega arith)
count_from-path (suc fuel) a head ret [] h lt v l = ground (arith, l.0)
count_from-path (suc fuel) a head ret (x ∷ xs) h lt (e, v) (q, r, l) =
    let rest = count_from-path fuel x head (ret + 1) xs h (omega arith) v l in
    let going : (x == head) ≡ false = ground arith in rw (q, going, rest) (ap some (omega arith))

-- The loop of `get_queue_length` ends on every ring, with the number of its nodes: one round more
-- than that is enough.
list_length-IsRing :
    (fuel : ℕ) (h : Links) (head : ℕ) (xs : List ℕ)
    → IsRing h head xs
    → length xs < fuel
    → list_length fuel head h ≡ some (length xs)
unfolding list_length
list_length-IsRing fuel h head xs r lt =
    count_from-path fuel head head 0 xs h lt r.distinct.0 r.linked ∙ ap some (omega arith)
