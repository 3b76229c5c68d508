-- ===== src/Db/RecapSelect/Passes.antt =====
-- server/internal/db/recap_select.go: what the two passes select of each author.
use check_in.Prelude.{
  ℕ, ◌+◌, ◌≤◌, ◌≡◌, Bool, List, [], ◌∷◌, ◌++◌, ◌==◌, if◌then◌else◌, length, length-append, arith,
  comparable_nat, min, max,
}
use check_in.Sorting.{count_by, count_by-append}
use check_in.Db.RecapSelect.{RecapCandidate, Marks, mark, Counts, increment, guarantee, fill}

abbrev pub by_author : ℕ → RecapCandidate → Bool
by_author a c = c.author_id == a

-- Pass 1 takes one post of each author who has posts and was not seen, and no second one.
pub count_by-guarantee :
    (a : ℕ) (seen : Marks) (cs : List RecapCandidate)
    → count_by (by_author a) (guarantee seen cs)
      ≡ (if seen a then 0 else min 1 (count_by (by_author a) cs))
unfolding guarantee
count_by-guarantee a seen [] = ground arith
count_by-guarantee a seen (c ∷ cs) =
    ground (arith, count_by-guarantee a seen cs, count_by-guarantee a (mark seen c.author_id) cs)

module _ (limit : ℕ) where
  -- Pass 2 drops nothing.
  pub count_by-fill-ge :
      (p : RecapCandidate → Bool) (selected : List RecapCandidate) (m : Marks) (n : Counts)
      (cs : List RecapCandidate)
      → count_by p selected ≤ count_by p (fill limit selected m n cs)
  unfolding fill
  count_by-fill-ge p selected m n [] = omega arith
  count_by-fill-ge p selected m n (c ∷ cs) = ground (
    arith,
    count_by-fill-ge p selected m n cs,
    count_by-fill-ge p (selected ++ c ∷ []) (mark m c.post_id) (increment n c.author_id) cs,
    count_by-append p selected (c ∷ []),
  )

  -- Pass 2 adds two posts of an author at most, less those that it has added.
  pub count_by-fill-le :
      (a : ℕ) (selected : List RecapCandidate) (m : Marks) (n : Counts) (cs : List RecapCandidate)
      → n a ≤ 2
      → count_by (by_author a) (fill limit selected m n cs) + n a
        ≤ count_by (by_author a) selected + 2
  unfolding fill
  count_by-fill-le a selected m n [] h = omega arith
  count_by-fill-le a selected m n (c ∷ cs) h = ground (
    arith,
    count_by-fill-le a selected m n cs h,
    count_by-fill-le a (selected ++ c ∷ []) (mark m c.post_id) (increment n c.author_id) cs,
    count_by-append (by_author a) selected (c ∷ []),
  )

  -- Pass 2 does not go over the limit.
  pub length-fill-le :
      (selected : List RecapCandidate) (m : Marks) (n : Counts) (cs : List RecapCandidate)
      → length (fill limit selected m n cs) ≤ max limit (length selected)
  unfolding fill
  length-fill-le selected m n [] = omega arith
  length-fill-le selected m n (c ∷ cs) = ground (
    arith,
    length-fill-le selected m n cs,
    length-fill-le (selected ++ c ∷ []) (mark m c.post_id) (increment n c.author_id) cs,
    length-append selected (c ∷ []),
  )
