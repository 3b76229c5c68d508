-- ===== src/Db/Timeline/Page.antt =====
-- server/internal/db/timeline.go: the page of one month's posts.
use check_in.Prelude.{
  ℕ, zero, suc, ◌*◌, ◌≤◌, ◌≡◌, refl, ap, sym, ◌∙◌, true, false, inl, inr, List, [], ◌∷◌, ltb,
  length, take, min, arith, Bool-cases, length-take, ℤ, ok,
}
use check_in.Sorting.{take_all}
use check_in.Clock.{day, date_days, months_after, sub_minutes}
use check_in.Db.Timeline.{cut_page, timeline_month_posts, max_timeline_month_posts}

take-take {ℓ} : {A : Type ℓ} (m n : ℕ) (xs : List A) → m ≤ n → take m (take n xs) ≡ take m xs
take-take zero n xs h = refl
take-take (suc m) zero xs h = absurd (omega arith)
take-take (suc m) (suc n) [] h = refl
take-take (suc m) (suc n) (x ∷ xs) h = ap (λ ys. x ∷ ys) (take-take m n xs (omega arith))

more_than : (n : ℕ) → ltb 200 (min 201 n) ≡ ltb 200 n
more_than n = ground arith

within : (n : ℕ) → ltb 200 n ≡ false → n ≤ 200
within n h = ground arith

page_lem : {A : Type 0} (xs : List A) → cut_page (take 201 xs) ≡ (take 200 xs, ltb 200 (length xs))
unfolding cut_page
page_lem xs = rw (length-take 201 xs) (
    rw (more_than (length xs)) (elim (Bool-cases (ltb 200 (length xs))) [
      | inl e ↦ rw e (ap (λ ys. (ys, true)) (take-take 200 201 xs (omega arith)))
      | inr e ↦ rw e (ap (λ ys. (ys, false)) (short xs (within (length xs) e)))
    ]))
  where
    short : {A : Type 0} (xs : List A) → length xs ≤ 200 → take 201 xs ≡ take 200 xs
    short xs e = take_all 201 xs (omega (arith, e)) ∙ sym (take_all 200 xs e)

-- For a query that returns the newest posts of a stretch of time, as many as it is asked for, the page of a
-- month has the newest 200 of its posts, and says there are more exactly if the month has more than 200. The
-- stretch is the month in the group's time.
pub timeline_month_posts_lem :
    {E Post : Type 0} (select : ℕ → ℕ → List Post) (offset : ℤ) (year month : ℕ)
    → let first = date_days year month 1 * day in
      let all = select (sub_minutes first offset) (sub_minutes (months_after 1 first) offset) in
      timeline_month_posts {E = E}
        (ok offset)
        (λ start end limit. ok (take limit (select start end)))
        year
        month
      ≡ ok (take max_timeline_month_posts all, ltb max_timeline_month_posts (length all))
unfolding timeline_month_posts
timeline_month_posts_lem select offset year month =
    ap (λ p. ok p)
      (page_lem (
        select (sub_minutes (date_days year month 1 * day) offset)
          (sub_minutes (months_after 1 (date_days year month 1 * day)) offset)))
