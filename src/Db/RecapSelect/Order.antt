-- ===== src/Db/RecapSelect/Order.antt =====
-- server/internal/db/recap_select.go: `candidateOutranks` is an order.
use check_in.Prelude.{◌≡◌, true, false, arith, comparable_nat}
use check_in.Sorting.{IsOrder}
use check_in.Db.RecapSelect.{RecapCandidate, candidate_outranks}

outranks_asym :
    (a b : RecapCandidate) → candidate_outranks a b ≡ true → candidate_outranks b a ≡ false
unfolding candidate_outranks
outranks_asym a b h = ground arith

outranks_trans :
    (a b c : RecapCandidate)
    → candidate_outranks b a ≡ false
    → candidate_outranks c b ≡ false
    → candidate_outranks c a ≡ false
unfolding candidate_outranks
outranks_trans a b c h k = ground arith

pub candidate_outranks-IsOrder : IsOrder candidate_outranks
candidate_outranks-IsOrder = record { asym = outranks_asym; trans = outranks_trans }

-- Two posts with distinct ids never tie.
pub outranks_total :
    (a b : RecapCandidate)
    → candidate_outranks a b ≡ false
    → candidate_outranks b a ≡ false
    → a.post_id ≡ b.post_id
unfolding candidate_outranks
outranks_total a b h k = ground arith
