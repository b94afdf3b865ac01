-- ===== src/Topology/Tables/Levels.antt =====
-- One level of the tables of source-reference/kernel/qdsp6/topology.c: children, each in the list of its
-- parent, and the number of them that the parent keeps.
use audioreach_usb_offload_r.Prelude.{
  ℕ, suc, ◌+◌, ◌-◌, ◌<◌, ◌≡◌, ◌≢◌, refl, ap, sym, ◌∙◌, inl, inr, Option, none, some, List, [], ◌∷◌,
  ◌++◌, length, ◌==◌, if◌then◌else◌, arith, Bool-cases, ==_iff,
}

-- How often k stands in a list.
abbrev pub occurs : ℕ → List ℕ → ℕ
occurs k [] = 0
occurs k (x ∷ xs) = if x == k then suc (occurs k xs) else occurs k xs

-- `list_del` of the node of k.
unfoldable pub del_node : ℕ → List ℕ → List ℕ
del_node k [] = []
del_node k (x ∷ xs) = if x == k then xs else x ∷ del_node k xs

occurs-snoc :
    (k j : ℕ) (xs : List ℕ) → occurs k (xs ++ j ∷ []) ≡ (if j == k then 1 else 0) + occurs k xs
occurs-snoc k j [] = ground arith
occurs-snoc k j (x ∷ xs) = ground (arith, occurs-snoc k j xs)

length-snoc : (j : ℕ) (xs : List ℕ) → length (xs ++ j ∷ []) ≡ length xs + 1
length-snoc j [] = refl
length-snoc j (x ∷ xs) = omega (arith, length-snoc j xs)

occurs-del_node :
    (k j : ℕ) (xs : List ℕ)
    → 0 < occurs j xs
    → occurs k (del_node j xs) + (if j == k then 1 else 0) ≡ occurs k xs
unfolding del_node
occurs-del_node k j [] h = elim h [ ]
occurs-del_node k j (x ∷ xs) h = ground (arith, occurs-del_node k j xs)

length-del_node : (j : ℕ) (xs : List ℕ) → 0 < occurs j xs → length (del_node j xs) + 1 ≡ length xs
unfolding del_node
length-del_node j [] h = elim h [ ]
length-del_node j (x ∷ xs) h = ground (arith, length-del_node j xs)

-- 1 if the parent is p.
abbrev pub is_parent : Option ℕ → ℕ → ℕ
is_parent none p = 0
is_parent (some q) p = if q == p then 1 else 0

-- Each child stands once in the list of its parent and in no other, and the numbers are those of the
-- lists.
pub record IsLevel (parent : ℕ → Option ℕ) (kids : ℕ → List ℕ) (num : ℕ → ℕ) : Type 0 where
  pub listed : (p k : ℕ) → occurs k (kids p) ≡ is_parent (parent k) p
  pub counted : (p : ℕ) → num p ≡ length (kids p)

pub IsLevel-ext :
    {f g : ℕ → Option ℕ} {k l : ℕ → List ℕ} {m n : ℕ → ℕ}
    → ((i : ℕ) → g i ≡ f i)
    → ((i : ℕ) → l i ≡ k i)
    → ((i : ℕ) → n i ≡ m i)
    → IsLevel f k m
    → IsLevel g l n
IsLevel-ext {l} a b c v = record {
  listed = λ p j. ap (occurs j) (b p) ∙ v.listed p j ∙ ap (λ q. is_parent q p) (sym (a j));
  counted = λ p. c p ∙ v.counted p ∙ ap length (sym (b p));
}

-- A child that comes to the end of the list of a parent.
pub IsLevel-insert :
    {f g : ℕ → Option ℕ} {k l : ℕ → List ℕ} {m n : ℕ → ℕ} (c p : ℕ)
    → f c ≡ none
    → ((i : ℕ) → g i ≡ (if c == i then some p else f i))
    → ((i : ℕ) → l i ≡ (if p == i then k p ++ c ∷ [] else k i))
    → ((i : ℕ) → n i ≡ (if p == i then m p + 1 else m i))
    → IsLevel f k m
    → IsLevel g l n
IsLevel-insert {f} {g} {k} {l} {m} {n} c p fresh a b d v = record {
  listed = λ q j.
      rw (a j, b q)
        (elim (Bool-cases (c == j)) [
          | inl e ↦
              let absent : f j ≡ none = ap f (sym ((==_iff c j).0 e)) ∙ fresh in
              ground (arith, occurs-snoc j c (k p), v.listed p j, v.listed q j, absent, e)
          | inr e ↦ ground (arith, occurs-snoc j c (k p), v.listed p j, v.listed q j, e)
        ]);
  counted = λ q. rw (d q, b q) (ground (arith, length-snoc c (k p), v.counted p, v.counted q));
}

-- A child with a parent stands in its list.
pub IsLevel-member :
    {f : ℕ → Option ℕ} {k : ℕ → List ℕ} {m : ℕ → ℕ} (c p : ℕ)
    → IsLevel f k m
    → f c ≡ some p
    → occurs c (k p) ≡ 1
IsLevel-member c p v e = v.listed p c ∙ rw e (ground arith)

-- A child that goes.
pub IsLevel-remove :
    {f g : ℕ → Option ℕ} {k l : ℕ → List ℕ} {m n : ℕ → ℕ} (c p : ℕ)
    → f c ≡ some p
    → ((i : ℕ) → g i ≡ (if c == i then none else f i))
    → ((i : ℕ) → l i ≡ (if p == i then del_node c (k p) else k i))
    → ((i : ℕ) → n i ≡ (if p == i then m p - 1 else m i))
    → IsLevel f k m
    → IsLevel g l n
IsLevel-remove {f} {g} {k} {l} {m} {n} c p here a b d v =
    let once = IsLevel-member c p v here in
    let pos : 0 < occurs c (k p) = omega (arith, once) in
    record {
      listed = λ q j.
          rw (a j, b q)
            (elim (Bool-cases (c == j)) [
              | inl e ↦
                  let at_j : f j ≡ some p = ap f (sym ((==_iff c j).0 e)) ∙ here in
                  ground (arith, occurs-del_node j c (k p) pos, v.listed p j, v.listed q j, at_j, e)
              | inr e ↦ ground (arith, occurs-del_node j c (k p) pos, v.listed p j, v.listed q j, e)
            ]);
      counted = λ q.
          rw (d q, b q) (ground (arith, length-del_node c (k p) pos, v.counted p, v.counted q));
    }

-- Nobody is the child of a parent with an empty list.
pub IsLevel-childless :
    {f : ℕ → Option ℕ} {k : ℕ → List ℕ} {m : ℕ → ℕ} (c p : ℕ)
    → IsLevel f k m
    → k p ≡ []
    → f c ≢ some p
IsLevel-childless {k} c p v e h = absurd (omega (arith, IsLevel-member c p v h, ap (occurs c) e))
