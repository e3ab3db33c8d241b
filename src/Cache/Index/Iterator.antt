-- ===== src/Cache/Index/Iterator.antt =====
-- `IChunkedIndexIterator` of netio/include/intf_chunkedindexIterator.h: the operations of an iterator
-- as a class that implements it provides them, what it is to walk over an index with them, and the loop over an
-- index that `CCacheManager::PrintAll` in netio/src/cache_manager.cpp makes with them.
use middlewar_test.Base.{
  ℕ, zero, suc, ◌≤◌, ◌≡◌, refl, sym, ap, ◌∙◌, Bool, true, false, Option, some, none, List, [], ◌∷◌,
  ◌++◌, append_assoc, append-nil, ltb, if◌then◌else◌, ◌==◌, ◌>>=◌, length, length-append, get_elem?,
  get_elem?-middle, ℤ, pos, negsuc, arith,
}

-- `Index` is the index that an iterator moves over, `Place` where it stands. `none` is a failed
-- assertion, or a place without a node.
pub record ChunkedIndexIterator (T : Type 0) : Type 1 where
  pub Index : Type 0
  pub Place : Type 0
  pub next : Index → Place → Option (ℤ × Place)
  pub prev : Index → Place → Option (ℤ × Place)
  pub get_current_node : Index → Place → Option T
  pub copy_current_node : Index → Place → T → Option (ℤ × T)
  pub compare : Place → Place → ℤ

unfoldable pub is_at_most : ℤ → Bool
is_at_most (pos n) = n == 0
is_at_most (negsuc n) = true

-- The sign by which two places are told apart.
abbrev pub order : ℕ → ℕ → ℤ
order i j = if ltb j i then pos 1 else if ltb i j then negsuc 0 else pos 0

is_at_most-order : (i j : ℕ) → i ≤ j → is_at_most (order i j) ≡ true
unfolding is_at_most
is_at_most-order i j h = ground arith

is_at_most-after : (j : ℕ) → is_at_most (order (suc j) j) ≡ false
unfolding is_at_most
is_at_most-after j = ground arith

length_snoc {ℓ} : {A : Type ℓ} (xs : List A) (x : A) → length (xs ++ x ∷ []) ≡ suc (length xs)
length_snoc xs x = omega (arith, length-append xs (x ∷ []))

module _ {T : Type 0} (X : ChunkedIndexIterator T) where
  -- The iterator walks over the nodes of the index: from each place is a
  -- step to the next and one back, a node is shown as it is and copied, and places compare as their
  -- numbers do.
  pub record Walks (x : X.Index) (nodes : List T) (place : ℕ → X.Place) : Type 0 where
    pub forth : (i : ℕ) → X.next x (place i) ≡ some (pos 0, place (suc i))
    pub back : (i : ℕ) → X.prev x (place (suc i)) ≡ some (pos 0, place i)
    pub shown :
        (i : ℕ) (n : T) → get_elem? nodes i ≡ some n → X.get_current_node x (place i) ≡ some n
    pub copied :
        (i : ℕ) (n node : T)
        → get_elem? nodes i ≡ some n
        → X.copy_current_node x (place i) node ≡ some (pos 0, n)
    pub compared : (i j : ℕ) → X.compare (place i) (place j) ≡ order i j

  -- One round for each unit of fuel, from the place `p` as long as it does not compare as behind
  -- `last`; the nodes are those that are printed.
  unfoldable pub visit : ℕ → X.Index → X.Place → X.Place → List T → Option (List T × X.Place)
  visit zero x p last out = none
  visit (suc f) x p last out = elim (is_at_most (X.compare p last)) [
    | true ↦ (do
      n ← X.get_current_node x p
      (c, p') ← X.next x p
      visit f x p' last (out ++ n ∷ []))
    | false ↦ some (out, p)
  ]

  module _ (x : X.Index) (nodes : List T) (place : ℕ → X.Place) (w : Walks x nodes place)
      (last : ℕ) where
    -- Behind the last place the loop ends at once.
    pub visit_behind :
        (f : ℕ) (out : List T)
        → visit (suc f) x (place (suc last)) (place last) out ≡ some (out, place (suc last))
    unfolding visit
    visit_behind f out = rw (w.compared (suc last) last, is_at_most-after last, visit)

    visit_step :
        (done rest : List T) (n : T) (f : ℕ) (out : List T)
        → nodes ≡ done ++ n ∷ rest
        → length done ≤ last
        → visit (suc f) x (place (length done)) (place last) out
          ≡ visit f x (place (suc (length done))) (place last) (out ++ n ∷ [])
    unfolding visit
    visit_step done rest n f out s h =
        let node : get_elem? nodes (length done) ≡ some n =
          ap (λ l. get_elem? l (length done)) s ∙ get_elem?-middle done rest n in
        rw (
          w.compared (length done) last,
          is_at_most-order (length done) last h,
          w.shown (length done) n node,
          w.forth (length done),
          visit,
        )

    visit_rest :
        (done rest : List T) (out : List T)
        → nodes ≡ done ++ rest
        → length nodes ≡ suc last
        → visit (suc (length rest)) x (place (length done)) (place last) out
          ≡ some (out ++ rest, place (suc last))
    visit_rest done [] out s e =
        let k : length done ≡ suc last = ap length (sym (s ∙ append-nil done)) ∙ e in
        rw (k, append-nil) (visit_behind 0 out)
    visit_rest done (n ∷ rest) out s e =
        let le : length done ≤ last =
          omega (arith, e, ap length s, length-append done (n ∷ rest)) in
        visit_step done rest n (suc (length rest)) out s le
        ∙ ap (λ k. visit (suc (length rest)) x (place k) (place last) (out ++ n ∷ []))
            (sym (length_snoc done n))
        ∙ visit_rest (done ++ n ∷ []) rest (out ++ n ∷ [])
            (s ∙ sym (append_assoc done (n ∷ []) rest)) e
        ∙ ap (λ l. some (l, place (suc last))) (append_assoc out (n ∷ []) rest)

    -- From the first place to the last the loop shows all nodes, in order, with a round for each and
    -- one for the test that ends it.
    pub visit_all :
        length nodes ≡ suc last
        → visit (suc (length nodes)) x (place 0) (place last) [] ≡ some (nodes, place (suc last))
    visit_all e = visit_rest [] nodes [] refl e
