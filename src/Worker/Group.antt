-- ===== src/Worker/Group.antt =====
-- The group of pkg/worker/group.go: its channel of one error, and what `Wait` returns. The jobs report
-- to it one after the other, since a send and the test for a full channel are one step.
use mathlib.Core.Path.{subst}
use go_service_template.Common.{
  Bool, true, false, ◌≡◌, refl, sym, ap, ◌∙◌, Option, none, some, List, [], ◌∷◌, Error,
}

-- The fields of `group`: what the buffer of `errChan` holds, whether the context is canceled, whether
-- `onceCloser` is done, and `errResult`.
pub record Group : Type 0 where
  pub err_chan : Option Error
  pub canceled : Bool
  pub closed : Bool
  pub err_result : Option Error

-- `WithinGroup`.
unfoldable pub new_group : Group
new_group = record { err_chan = none; canceled = false; closed = false; err_result = none }

-- The `select` of `handleErr`, for what the channel holds.
pub send_err : Option Error → Error → Group → Group
send_err none e g = record g { err_chan = some e; canceled = true }
send_err (some held) e g = g

unfoldable pub handle_err : Option Error → Group → Group
unfolding send_err
handle_err none g = g
handle_err (some e) g = send_err g.err_chan e g

-- The function of `onceCloser`, for what the channel holds.
pub receive_err : Option Error → Group → Group
receive_err none g = record g { canceled = true; closed = true }
receive_err (some e) g = record g {
  canceled = true;
  closed = true;
  err_chan = none;
  err_result = some e;
}

pub close_once : Bool → Group → Group
unfolding receive_err
close_once true g = g
close_once false g = receive_err g.err_chan g

-- `Wait`, when every job is done.
unfoldable pub wait : Group → Option Error × Group
unfolding close_once
wait g = let closed = close_once g.closed g in (closed.err_result, closed)

-- The jobs that end with these results, in this order.
unfoldable pub report_all : List (Option Error) → Group → Group
unfolding handle_err
report_all [] g = g
report_all (r ∷ rs) g = report_all rs (handle_err r g)

-- The first error that is reported.
abbrev pub first_error : List (Option Error) → Option Error
first_error [] = none
first_error (none ∷ rs) = first_error rs
first_error (some e ∷ rs) = some e

report_all-held :
    (e : Error) (rs : List (Option Error)) (g : Group) → g.err_chan ≡ some e → report_all rs g ≡ g
unfolding report_all handle_err send_err
report_all-held e [] g h = refl
report_all-held e (none ∷ rs) g h = report_all-held e rs g h
report_all-held e (some f ∷ rs) g h =
    ap (λ o. report_all rs (send_err o f g)) h ∙ report_all-held e rs g h

-- The group after these results, if no error was held.
abbrev reported : List (Option Error) → Group → Group
reported rs g = elim (first_error rs) [
  | none ↦ g
  | some e ↦ record g { err_chan = some e; canceled = true }
]

report_all-reported :
    (rs : List (Option Error)) (g : Group) → g.err_chan ≡ none → report_all rs g ≡ reported rs g
unfolding report_all handle_err send_err
report_all-reported [] g h = refl
report_all-reported (none ∷ rs) g h = report_all-reported rs g h
report_all-reported (some e ∷ rs) g h =
    ap (λ o. report_all rs (send_err o e g)) h
    ∙ report_all-held e rs (record g { err_chan = some e; canceled = true }) refl

err_chan-new_group : new_group.err_chan ≡ none
unfolding new_group
err_chan-new_group = refl

abbrev pub is_some : Option Error → Bool
is_some none = false
is_some (some e) = true

wait-reported :
    (rs : List (Option Error))
    → ((wait (reported rs new_group)).0 ≡ first_error rs)
      × ((wait (wait (reported rs new_group)).1).0 ≡ first_error rs)
      × ((reported rs new_group).canceled ≡ is_some (first_error rs))
unfolding wait close_once receive_err new_group
wait-reported [] = (refl, refl, refl)
wait-reported (none ∷ rs) = wait-reported rs
wait-reported (some e ∷ rs) = (refl, refl, refl)

-- `Wait` returns the error that was reported first, nil if every job returned nil, and so does every
-- later `Wait`; before the first one, the context of the group is canceled exactly if a job failed.
pub wait-report_all :
    (rs : List (Option Error))
    → ((wait (report_all rs new_group)).0 ≡ first_error rs)
      × ((wait (wait (report_all rs new_group)).1).0 ≡ first_error rs)
      × ((report_all rs new_group).canceled ≡ is_some (first_error rs))
wait-report_all rs =
    subst
      (λ g.
        ((wait g).0 ≡ first_error rs)
        × ((wait (wait g).1).0 ≡ first_error rs)
        × (g.canceled ≡ is_some (first_error rs)))
      (sym (report_all-reported rs new_group err_chan-new_group)) (wait-reported rs)
