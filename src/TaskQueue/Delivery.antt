-- ===== src/TaskQueue/Delivery.antt =====
-- Which texts the queues hold after a batch, and after delayed tasks were moved.
use mathlib.Core.Path.{subst}
use mathlib.Core.List.{append_assoc, append-nil}
use integrated_work.Prelude.{
  ℕ, suc, ◌≡◌, refl, ap, sym, ◌∙◌, true, false, some, List, [], ◌∷◌, ◌++◌, map, keep, take,
  nonempty, if◌then◌else◌, arith, IfSome, bind-IfSome, bind-IfSome_any,
}
use integrated_work.Text.{Text, txt, text_eq, contains}
use integrated_work.Text.Laws.{text_eq_iff}
use integrated_work.Dict.{Dict, get, put, keys}
use integrated_work.Dict.Laws.{get-put, Distinct, put-Distinct}
use integrated_work.Worker.Tables.{QueuePayload}
use integrated_work.TaskQueue.{
  Redis, grouped_at, group_from, routed, publish, push_all, publish_batch, route_due, move_due,
  process_delayed_tasks,
}

-- The texts that go to a queue, in their order.
abbrev pub sent_to : Text → List (Text × Text) → List Text
sent_to k pairs = map (λ p. p.1) (keep (λ p. text_eq p.0 k) pairs)

grouped_at-put :
    (k j : Text) (xs : List Text) (g : Dict (List Text))
    → grouped_at k (put j xs g) ≡ (if text_eq j k then xs else grouped_at k g)
unfolding grouped_at
grouped_at-put k j xs g = ground (arith, get-put k j xs g)

grouped_at-group_from :
    (k : Text) (pairs : List (Text × Text)) (g : Dict (List Text))
    → grouped_at k (group_from pairs g) ≡ grouped_at k g ++ sent_to k pairs
unfolding group_from keep
grouped_at-group_from k [] g = sym (append-nil (grouped_at k g))
grouped_at-group_from k ((j, x) ∷ pairs) g = ground (
  arith,
  grouped_at-group_from k pairs (put j (grouped_at j g ++ x ∷ []) g),
  grouped_at-put k j (grouped_at j g ++ x ∷ []) g,
  text_eq_iff j k,
  append_assoc (grouped_at k g) (x ∷ []) (sent_to k pairs),
)

group_from-Distinct :
    (pairs : List (Text × Text)) (g : Dict (List Text))
    → Distinct (keys g)
    → Distinct (keys (group_from pairs g))
unfolding group_from
group_from-Distinct [] g h = h
group_from-Distinct ((j, x) ∷ pairs) g h =
    group_from-Distinct pairs (put j (grouped_at j g ++ x ∷ []) g)
      (put-Distinct j (grouped_at j g ++ x ∷ []) g h)

absent : (k : Text) (g : Dict (List Text)) → contains k (keys g) ≡ false → grouped_at k g ≡ []
unfolding grouped_at keys contains get
absent k [] h = refl
absent k ((j, xs) ∷ g) h = ground (arith, absent k g)

nonempty-take : (n : ℕ) (xs : List Text) → nonempty (take (suc n) xs) ≡ nonempty xs
nonempty-take n [] = refl
nonempty-take n (x ∷ xs) = refl

module _ {D : Type 0} (redis : Redis D) (queue_name : Text) where
  items-push_all :
      (k : Text) (g : Dict (List Text)) (d : D)
      → Distinct (keys g)
      → redis.items k (push_all redis queue_name g d) ≡ redis.items k d ++ grouped_at k g
  unfolding push_all grouped_at keys get
  items-push_all k [] d h = sym (append-nil (redis.items k d))
  items-push_all k ((j, xs) ∷ g) d h = ground (
    arith,
    items-push_all k g (redis.rpush j xs d) h.1,
    redis.items-rpush j k xs d,
    absent k g,
    text_eq_iff j k,
    h.0,
    append-nil (redis.items k d ++ xs),
  )

  items-pushed :
      (k : Text) (pairs : List (Text × Text)) (d : D)
      → redis.items k (push_all redis queue_name (group_from pairs []) d)
        ≡ redis.items k d ++ sent_to k pairs
  unfolding keys grouped_at get
  items-pushed k pairs d =
      items-push_all k (group_from pairs []) d (group_from-Distinct pairs [] tt)
      ∙ ap (λ xs. redis.items k d ++ xs) (grouped_at-group_from k pairs [])

  -- What publishing the payloads of a list one by one leaves.
  abbrev pub published : List QueuePayload → D → D
  published [] d = d
  published (p ∷ payloads) d = published payloads (publish redis queue_name p d).1

  pub items-published :
      (k : Text) (payloads : List QueuePayload) (d : D)
      → redis.items k (published payloads d)
        ≡ redis.items k d ++ sent_to k (map (routed redis queue_name) payloads)
  unfolding publish routed keep
  items-published k [] d = sym (append-nil (redis.items k d))
  items-published k (p ∷ payloads) d =
      let (j, x) = routed redis queue_name p in
      ground (
        arith,
        items-published k payloads (redis.rpush j (x ∷ []) d),
        redis.items-rpush j k (x ∷ []) d,
        append_assoc (redis.items k d) (x ∷ [])
            (sent_to k (map (routed redis queue_name) payloads)),
      )

  -- Every queue holds after a batch what it holds after the payloads of the batch were published one by
  -- one: each behind what was there, in the order of the batch.
  pub items-publish_batch :
      (k : Text) (payloads : List QueuePayload) (d : D)
      → redis.items k (publish_batch redis queue_name payloads d).1
        ≡ redis.items k (published payloads d)
  unfolding publish_batch
  items-publish_batch k [] d = refl
  items-publish_batch k (p ∷ payloads) d =
      items-pushed k (map (routed redis queue_name) (p ∷ payloads)) d
      ∙ sym (items-published k (p ∷ payloads) d)

  abbrev pub delayed : Text
  delayed = queue_name ++ txt ":delayed"

  route_due-texts :
      (texts : List Text)
      → IfSome (λ pairs. map (λ p. p.1) pairs ≡ texts) (route_due redis queue_name texts)
  unfolding route_due
  route_due-texts [] = refl
  route_due-texts (x ∷ texts) =
      bind-IfSome_any (λ pairs. map (λ p. p.1) pairs ≡ x ∷ texts) (redis.decode x) _
        (λ payload.
          bind-IfSome (λ pairs. map (λ p. p.1) pairs ≡ texts)
            (λ pairs. map (λ p. p.1) pairs ≡ x ∷ texts) (route_due redis queue_name texts) _
            (route_due-texts texts) (λ pairs e. ap (λ ts. x ∷ ts) e))

  moved :
      (now : ℕ) (pairs : List (Text × Text)) (d : D)
      → nonempty (redis.due delayed now d) ≡ true
      → route_due redis queue_name (take 50 (redis.due delayed now d)) ≡ some pairs
      → process_delayed_tasks redis queue_name now d
        ≡ redis.zremrangebyscore delayed now (push_all redis queue_name (group_from pairs []) d)
  unfolding process_delayed_tasks move_due
  moved now pairs d h r = rw (nonempty-take 49 (redis.due delayed now d) ∙ h, r) refl

  -- When tasks are due and the first fifty of them are payloads, every queue holds what it held and,
  -- behind that, the texts of those fifty or fewer that belong to it; and no due task, of those fifty
  -- or beyond them, is delayed any more.
  pub items-process_delayed_tasks :
      (k : Text) (now : ℕ) (pairs : List (Text × Text)) (d : D)
      → nonempty (redis.due delayed now d) ≡ true
      → route_due redis queue_name (take 50 (redis.due delayed now d)) ≡ some pairs
      → (redis.items k (process_delayed_tasks redis queue_name now d)
          ≡ redis.items k d ++ sent_to k pairs)
        × (map (λ p. p.1) pairs ≡ take 50 (redis.due delayed now d))
        × (redis.due delayed now (process_delayed_tasks redis queue_name now d) ≡ [])
  items-process_delayed_tasks k now pairs d h r =
      let pushed = push_all redis queue_name (group_from pairs []) d in
      (
        ap (redis.items k) (moved now pairs d h r)
            ∙ redis.items-zremrangebyscore delayed k now pushed
            ∙ items-pushed k pairs d,
        subst (IfSome (λ ps. map (λ p. p.1) ps ≡ take 50 (redis.due delayed now d))) r
            (route_due-texts (take 50 (redis.due delayed now d))),
        ap (redis.due delayed now) (moved now pairs d h r)
            ∙ redis.due-zremrangebyscore delayed now pushed,
      )
