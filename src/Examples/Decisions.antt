-- ===== src/Examples/Decisions.antt =====
-- The decision cache at concrete inputs.
use self_host.Prelude.{
  ◌≡◌, ◌≢◌, inl, inr, refl, sym, ap, ◌∙◌, Bool, true, false, List, [], ◌∷◌, map, In, All, Result,
  ok, some,
}
use self_host.Prelude.Int.{pos}
use self_host.Text.{Text, codes, text_eq, contains_char}
use self_host.Text.Map.{lookup, insert}
use self_host.Errors.{Error}
use self_host.Policy.Check.{
  AccessDecision, ExplainRow, ExplainQuery, cache_lookup, lookup_pass, enter_rows, ordered,
  decision_of_row, explain_user_access_many_via_token, user_has_many_access_via_token,
}
use self_host.Policy.Check.Maps.{Answers, IsCurrent, database_decision}
use self_host.Policy.Check.Transparent.{explain_many-database, explain_many-IsCurrent, granted_many}

-- A database that grants everything to every token.
abbrev pub grant : Text → Text → Text → ExplainRow
grant t a r = record {
  resource = r;
  matched = true;
  access = true;
  policy_uuid = 1;
  group_uuid = 2;
  priority = pos 0;
  effect = codes "allow";
  policy_resource = codes "%";
}

abbrev pub everyone : Text → Bool
everyone t = true

abbrev pub query : ExplainQuery Error
query t a rs = ok (map (grant t a) rs)

grant-only :
    (t a : Text) (rs : List Text) (w : ExplainRow)
    → In w (map (grant t a) rs)
    → w ≡ grant t a w.resource
grant-only t a [] w m = absurd m
grant-only t a (r ∷ rs) w (inl e) = e ∙ ap (λ (v : ExplainRow). grant t a v.resource) (sym e)
grant-only t a (r ∷ rs) w (inr m) = grant-only t a rs w m

In-map-grant :
    (t a : Text) (rs : List Text) (r : Text) → In r rs → In (grant t a r) (map (grant t a) rs)
In-map-grant t a [] r m = absurd m
In-map-grant t a (x ∷ rs) r (inl e) = inl (ap (grant t a) e)
In-map-grant t a (x ∷ rs) r (inr m) = inr (In-map-grant t a rs r m)

rows_of_ok :
    (l rows : List ExplainRow)
    → ◌≡◌ {A = Result Error (List ExplainRow)} (ok l) (ok rows)
    → l ≡ rows
rows_of_ok l rows q = cc q

pub query-Answers : Answers grant everyone query
query-Answers = record {
  resource_of = λ t a r. refl;
  only = λ t a rs rows q w m.
      (refl, grant-only t a rs w (rw (rows_of_ok (map (grant t a) rs) rows q) m));
  complete = λ t a rs rows q kn r m.
      rw (rows_of_ok (map (grant t a) rs) rows q) at (In-map-grant t a rs r m);
}

abbrev two : List Text
two = codes "things/2" ∷ codes "things/1" ∷ []

pub empty-IsCurrent : IsCurrent grant everyone (some [])
unfolding cache_lookup lookup
empty-IsCurrent = record { holds = λ t a r d f g q. cc q }

pub token_plain : contains_char (codes "tok") 0 ≡ false
unfolding contains_char
token_plain = refl

action_plain : contains_char (codes "read") 0 ≡ false
unfolding contains_char
action_plain = refl

abbrev granted : Text → AccessDecision
granted r = decision_of_row (codes "read") (grant (codes "tok") (codes "read") r)

two_explained :
    (explain_user_access_many_via_token query (codes "tok") (codes "read") two (some [])).0
    ≡ ok (map granted two)
unfolding explain_user_access_many_via_token lookup_pass cache_lookup lookup insert enter_rows
    ordered text_eq
two_explained = refl

two_granted :
    (user_has_many_access_via_token query (codes "tok") (codes "read") two (some [])).0 ≡ ok true
unfolding user_has_many_access_via_token explain_user_access_many_via_token lookup_pass cache_lookup
    lookup insert enter_rows ordered text_eq decision_of_row
two_granted = refl

explain_many-database_example :
    map granted two ≡ map (database_decision grant everyone (codes "tok") (codes "read")) two
explain_many-database_example =
    explain_many-database grant everyone query query-Answers (codes "tok") (codes "read") two
      (some []) token_plain action_plain empty-IsCurrent (map granted two) two_explained

cache_kept :
    IsCurrent grant everyone
      (explain_user_access_many_via_token query (codes "tok") (codes "read") two (some [])).1
cache_kept =
    explain_many-IsCurrent grant everyone query query-Answers (codes "tok") (codes "read") two
      (some []) token_plain action_plain empty-IsCurrent

granted_many_example :
    (two ≢ [])
    × All (λ r. (database_decision grant everyone (codes "tok") (codes "read") r).access ≡ true) two
granted_many_example =
    granted_many grant everyone query query-Answers (codes "tok") (codes "read") two (some [])
      token_plain action_plain empty-IsCurrent two_granted
