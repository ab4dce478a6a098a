-- ===== src/Ingest/Runtime/Loop.antt =====
-- What the transform workers make of a sequence of messages.
use self_host.Prelude.{
  ℕ, ◌+◌, ◌≡◌, refl, sym, ap, ◌∙◌, Bool, true, Option, List, [], ◌∷◌, ◌++◌, length, arith, Result,
  ok, err,
}
use mathlib.Core.List.{append_assoc, append-nil}
use self_host.Text.{Text}
use self_host.Policy.Rule.{Uuid}
use self_host.Ingest.Fixed.{Point, Formats, TransformError}
use self_host.Ingest.Route.{Packages, transform}
use self_host.Ingest.Runtime.{
  RoutedMessage, TransformState, enqueue, enqueued, transformed, handle, transform_loop,
}

-- Every point is put into the queue.
unfoldable pub takes_all : ℕ → Bool
takes_all n = true

module _ {F T : Type 0} where
  -- The points of the messages that have some, a batch for each
  unfoldable pub batches_of :
      List (Result TransformError (List (Point F T))) → List (List (Point F T))
  batches_of [] = []
  batches_of (err e ∷ made) = batches_of made
  batches_of (ok [] ∷ made) = batches_of made
  batches_of (ok (p ∷ ps) ∷ made) = (p ∷ ps) ∷ batches_of made

  unfoldable pub failures : List (Result TransformError (List (Point F T))) → ℕ
  failures [] = 0
  failures (err e ∷ made) = 1 + failures made
  failures (ok points ∷ made) = failures made

  unfoldable pub all_points : List (List (Point F T)) → ℕ
  all_points [] = 0
  all_points (points ∷ batches) = length points + all_points batches

  -- The points of all batches, in order
  unfoldable pub flat : List (List (Point F T)) → List (Point F T)
  flat [] = []
  flat (points ∷ batches) = points ++ flat batches

  abbrev state : ℕ → ℕ → List (List (Point F T)) → List (Point F T) → TransformState F T
  state errors points batches queue = record {
    transform_errors = errors;
    transformed_points = points;
    given = batches;
    queued = queue;
  }

  same_state :
      {a a' b b' : ℕ} {c c' : List (List (Point F T))} {d d' : List (Point F T)}
      → a ≡ a'
      → b ≡ b'
      → c ≡ c'
      → d ≡ d'
      → state a b c d ≡ state a' b' c' d'
  same_state x y z u = cc (x, y, z, u)

  -- The state after the messages whose results are `made`
  unfoldable pub after :
      TransformState F T → List (Result TransformError (List (Point F T))) → TransformState F T
  after s made = record {
    transform_errors = s.transform_errors + failures made;
    transformed_points = s.transformed_points + all_points (batches_of made);
    given = s.given ++ batches_of made;
    queued = s.queued ++ flat (batches_of made);
  }

  enqueue-takes_all :
      (queue points : List (Point F T)) → enqueue takes_all queue points ≡ (true, queue ++ points)
  unfolding enqueue takes_all
  enqueue-takes_all queue [] = ap (λ q. (true, q)) (sym (append-nil queue))
  enqueue-takes_all queue (p ∷ ps) =
      enqueue-takes_all (queue ++ p ∷ []) ps ∙ ap (λ q. (true, q)) (append_assoc queue (p ∷ []) ps)

  after-nil : (s : TransformState F T) → s ≡ after s []
  unfolding after batches_of failures all_points flat
  after-nil s =
      same_state (omega arith) (omega arith) (sym (append-nil s.given)) (sym (append-nil s.queued))

  after-transformed :
      (m : Result TransformError (List (Point F T)))
      (made : List (Result TransformError (List (Point F T)))) (s : TransformState F T)
      → after (transformed takes_all m s).1 made ≡ after s (m ∷ made)
  unfolding after batches_of failures all_points transformed enqueued flat
  after-transformed (err e) made s = same_state (omega arith) refl refl refl
  after-transformed (ok []) made s = refl
  after-transformed (ok (p ∷ ps)) made s = rw (enqueue-takes_all s.queued (p ∷ ps)) (
      same_state refl (omega arith) (append_assoc s.given ((p ∷ ps) ∷ []) (batches_of made))
        (append_assoc s.queued (p ∷ ps) (flat (batches_of made))))

  continues :
      (m : Result TransformError (List (Point F T))) (s : TransformState F T)
      → (transformed takes_all m s).0 ≡ true
  unfolding transformed enqueued
  continues (err e) s = refl
  continues (ok []) s = refl
  continues (ok (p ∷ ps)) s = rw (enqueue-takes_all s.queued (p ∷ ps)) refl

module _ {F T R S : Type 0} (packages : Packages F T R S) (parse_uuid : Text → Option Uuid)
    (formats : Formats F T) where
  unfoldable pub results :
      List (RoutedMessage T R S) → List (Result TransformError (List (Point F T)))
  results [] = []
  results (item ∷ items) =
      transform packages parse_uuid formats item.route item.message ∷ results items

  -- While the context is not done, so that Enqueue takes all points, transformLoop gives the points of each message that
  -- has some to it once, in the order of the messages, which queues them all in this order, counts these points, and counts
  -- each message that Transform refuses and goes on after it.
  pub transform_loop-after :
      (items : List (RoutedMessage T R S)) (s : TransformState F T)
      → transform_loop packages parse_uuid formats takes_all items s ≡ after s (results items)
  unfolding transform_loop handle results
  transform_loop-after [] s = after-nil s
  transform_loop-after (item ∷ items) s =
      let m = transform packages parse_uuid formats item.route item.message in
      rw (continues m s) (
        transform_loop-after items (transformed takes_all m s).1
        ∙ after-transformed m (results items) s)
