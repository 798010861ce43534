-- ===== src/Clock/Tests.antt =====
-- CIDs of one second.
use logger_verifier.Clock.{get_cid, length-get_cid, get_cid-collides}
use logger_verifier.Base.{ℕ, ◌≡◌, refl, List, arith, length, codes}

abbrev stamp : List ℕ
stamp = codes "2022-08-10_12:00:05."

get_cid_of_stamp : length (get_cid stamp 7) ≡ 23
get_cid_of_stamp = length-get_cid stamp 7 refl (ground arith)

three_moments : (get_cid stamp 5 ≡ get_cid stamp 50) × (get_cid stamp 5 ≡ get_cid stamp 500)
three_moments = get_cid-collides stamp 5 refl (ground arith) (ground arith)
