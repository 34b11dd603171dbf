-- ===== src/Tests/Status.antt =====
-- Runs of conditions and of the updates of a proxy on concrete inputs.
use contour.Prelude.{
  ◌≤◌, ◌≡◌, refl, none, some, inl, inr, List, [], ◌∷◌, Text, codes, text_eq, All, true,
  if◌then◌else◌,
}
use contour.Status.Detailed.{
  is_false, DetailedCondition, add_error, get_error, valid_condition_type,
}
use contour.Status.Detailed.Laws.{
  Report, error, warning, reports, or_other, error_of, IsShort, get_error-add_error,
  reports-IsShort,
}
use contour.Status.Updates.{
  NamespacedName, ProxyUpdate, ProxyUpdates, new_condition, on_condition, proxy_accessor,
  valid_status, HttpProxyStatus, mutate,
}
use contour.Status.Updates.Laws.{
  IsSettled, commits, verdict, decide, some_update, is_no, is_yes, commits-verdict,
  valid_status-reports,
}
use contour.Status.Updates.Mutate.{generation_of, mutate-generation}

abbrev pub shop : NamespacedName
shop = record { namespace = codes "ns"; name = codes "shop" }

abbrev one_error : List Report
one_error =
    warning (codes "SpecError") (codes "IgnoredField") []
    ∷ error (codes "RouteError") (codes "NoRoutes") []
    ∷ []

abbrev fresh : DetailedCondition
fresh = new_condition valid_condition_type 3

-- An update that says so, and one that says no.
abbrev good : ProxyUpdate
good = on_condition valid_condition_type (reports []) (proxy_accessor shop 3 7)

abbrev bad : ProxyUpdate
bad = on_condition valid_condition_type (reports one_error) (proxy_accessor shop 3 7)

good-IsSettled : IsSettled good
good-IsSettled = inl (valid_status-reports [] shop 3 7)

bad-IsSettled : IsSettled bad
bad-IsSettled = inr (valid_status-reports one_error shop 3 7)

verdict_example :
    (c : ProxyUpdates) × (commits (bad ∷ good ∷ []) [] ≡ some c)
    × (verdict shop c
        ≡ decide
            (some_update is_no shop (bad ∷ good ∷ []))
            (some_update is_yes shop (bad ∷ good ∷ [])))
verdict_example = commits-verdict shop (bad ∷ good ∷ []) (bad-IsSettled, (good-IsSettled, tt))

status_example :
    valid_status (on_condition valid_condition_type (reports one_error) (proxy_accessor shop 3 7))
    ≡ some is_false
status_example = valid_status-reports one_error shop 3 7

short_example :
    All IsShort (reports one_error fresh).errors × All IsShort (reports one_error fresh).warnings
short_example = reports-IsShort one_error fresh tt tt

-- The first of two errors of one type is found.
get_error_example :
    get_error
      (codes "RouteError")
      (add_error (codes "RouteError") (codes "NoServices") [] (reports one_error fresh))
    ≡ or_other (get_error (codes "RouteError") (reports one_error fresh)) (
        if text_eq (codes "RouteError") (codes "RouteError")
        then some (error_of (codes "RouteError") (codes "NoServices") [])
        else none)
get_error_example =
    get_error-add_error (codes "RouteError") (codes "RouteError") (codes "NoServices") []
      (reports one_error fresh)

abbrev old_status : HttpProxyStatus
old_status = record {
  current_status = codes "valid";
  description = codes "Valid HTTPProxy";
  conditions = new_condition valid_condition_type 2 ∷ [];
}

abbrev update : ProxyUpdate
update = record {
  fullname = shop;
  generation = 3;
  transition_time = 7;
  vhost = [];
  conditions = (valid_condition_type, fresh) ∷ [];
}

abbrev new_status : HttpProxyStatus
new_status = record old_status { conditions = record fresh { last_transition_time = 7 } ∷ [] }

mutated : mutate update old_status ≡ some new_status
unfolding mutate text_eq
mutated = refl

update-IsKeyed : text_eq valid_condition_type valid_condition_type ≡ true
unfolding text_eq
update-IsKeyed = refl

generation_example :
    ((k : Text) → generation_of k old_status.conditions ≤ generation_of k new_status.conditions)
    × All (λ e. update.generation ≤ generation_of e.0 new_status.conditions) update.conditions
generation_example = mutate-generation update old_status new_status (update-IsKeyed, tt) mutated
