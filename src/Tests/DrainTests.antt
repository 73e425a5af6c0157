-- ===== src/Tests/DrainTests.antt =====
-- One run of each theorem on a queue that is emptied, and on a worker that waits.
use dr.Base.{
  ◌≡◌, ◌≢◌, refl, arith, ℕ, zero, suc, ◌≤◌, List, [], ◌∷◌, ok, err, Result, failure, Error,
}
use dr.Base.Dict.{lookup, insert}
use dr.Base.Text.{contains, atoi}
use dr.Api.{create, update, ObjResource, get}
use dr.Transport.{Transporter, transport_round, is_new_version, mark_as_successed, settle}
use dr.Transport.Drain.{drain, RefusesAtMost, IsDelivered, drain-IsDelivered}
use dr.Transport.Highest.{IsHighest, drain-IsHighest}
use dr.Tests.Fixtures.{docs, text_at, config_map}

-- The other side refuses as often as its number says, and then takes everything.
abbrev refuse_once : ObjResource → ℕ → ℕ × Result (Unit {0})
refuse_once objr zero = (0, ok tt)
refuse_once objr (suc n) = (n, err (failure "busy"))

abbrev grudging : Transporter ℕ
grudging = record { transport = refuse_once }

grudging_answers : (objr : ObjResource) (n : ℕ) → (refuse_once objr n).1 ≢ Result.panic
grudging_answers objr zero e = cc e
grudging_answers objr (suc n) e = cc e

grudging_kept : (objr : ObjResource) (n : ℕ) → (refuse_once objr n).0 ≤ n
grudging_kept objr zero = omega arith
grudging_kept objr (suc n) = omega arith

grudging_spent :
    (objr : ObjResource) (n : ℕ) (e : Error)
    → (refuse_once objr n).1 ≡ err e
    → suc (refuse_once objr n).0 ≤ n
grudging_spent objr zero e h = absurd (cc h)
grudging_spent objr (suc n) e h = omega arith

grudging-RefusesAtMost : RefusesAtMost docs grudging (λ _. Unit {0}) (λ n. n)
grudging-RefusesAtMost = record {
  answers = λ objr remote m. grudging_answers objr remote;
  kept = λ objr remote m. grudging_kept objr remote;
  spent = λ objr remote e m h other. grudging_spent objr remote e h;
}

abbrev three : List ObjResource
three = config_map "u1" "7" create ∷ config_map "u2" "3" create ∷ config_map "u1" "9" update ∷ []

drain-IsDelivered_example :
    IsDelivered docs grudging
      (λ n. n)
      grudging-RefusesAtMost
      three
      (drain docs grudging 5 three [] 2)
drain-IsDelivered_example =
    drain-IsDelivered docs grudging (λ n. n) grudging-RefusesAtMost 5 three [] 2 (omega arith)
      (tt, (tt, (tt, tt)))

drain-IsHighest_example : IsHighest docs grudging three "u1" "9"
unfolding drain transport_round is_new_version mark_as_successed settle lookup insert contains atoi
    text_at get
drain-IsHighest_example =
    drain-IsHighest docs grudging (λ n. n) grudging-RefusesAtMost 5 three 2 "u1" "9" (omega arith)
      (tt, (tt, (tt, tt))) refl
