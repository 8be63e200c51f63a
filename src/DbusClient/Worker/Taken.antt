-- ===== src/DbusClient/Worker/Taken.antt =====
-- pkg/client/client.go: what the goroutine of `Subscribe` has read and sent, in any
-- interleaving with the reader and with `Close`.
use mathlib.Core.Path.{subst}
use mathlib.Core.List.{append_assoc, append-nil}
use fw_id_agent.Prelude.{
  ◌≡◌, ◌⊎◌, inl, inr, refl, sym, ap, ◌∙◌, Bool, true, List, [], ◌∷◌, ◌++◌, length,
}
use fw_id_agent.Config.{Tnd}
use fw_id_agent.Status.{Status, copy}
use fw_id_agent.DbusClient.Update.{Bus}
use fw_id_agent.DbusClient.Signal.{Signal, handle_properties_changed}
use fw_id_agent.DbusClient.Signal.Following.{
  Updates, none_left, last_copy, last_copy-append, skip_last, take_last, Handled-cases,
}
use fw_id_agent.DbusClient.Worker.{
  Place, sending, waiting, leaving, over, dead, Link, after, Step, hand_over, give_up, read,
  drained, finish, close_conn, close_done, Reach, started, arrives, later,
}

module _ (T : Tnd) (B : Bus T.Conf) where
  open B use {Variant}

  -- What the goroutine still owes the reader, by its place and the flag `done_closed`.
  abbrev pub Owes : Place T.Conf → Bool → List (Status T.Conf) → Type 0
  Owes (sending u) d missing = missing ≡ u ∷ []
  Owes waiting d missing = missing ≡ []
  Owes leaving d missing = (missing ≡ []) ⊎ ((d ≡ true) × (length missing ≡ 1))
  Owes over d missing = (missing ≡ []) ⊎ ((d ≡ true) × (length missing ≡ 1))
  Owes dead d missing = missing ≡ []

  -- The signals that were put into the channel: those taken, and those still in it. The one on which
  -- the goroutine panics stands between them.
  abbrev pub Queue : Place T.Conf → (taken left all : List (Signal Variant)) → Type 0
  Queue dead taken left all = (x : Signal Variant) × (taken ++ (x ∷ left) ≡ all)
  Queue _ taken left all = taken ++ left ≡ all

  pub record Taken (s : Status T.Conf) (ss : List (Signal Variant)) (l : Link Variant T.Conf)
      : Type 0 where
    pub taken : List (Signal Variant)
    pub us : List (Status T.Conf)
    pub missing : List (Status T.Conf)
    pub updates : Updates T B taken s us
    pub told : copy T s ∷ us ≡ l.received ++ missing
    pub current : l.status ≡ last_copy T s us
    pub owes : Owes l.place l.done_closed missing
    pub queue : Queue l.place taken l.signals ss

  Owes-done :
      (d : Bool) (missing : List (Status T.Conf)) (p : Place T.Conf)
      → Owes p d missing
      → Owes p true missing
  Owes-done d m (sending u) h = h
  Owes-done d m waiting h = h
  Owes-done d m leaving (inl e) = inl e
  Owes-done d m leaving (inr (shut, e)) = inr (refl, e)
  Owes-done d m over (inl e) = inl e
  Owes-done d m over (inr (shut, e)) = inr (refl, e)
  Owes-done d m dead h = h

  one_more :
      (x : Signal Variant) (ts ls all : List (Signal Variant))
      → ts ++ ls ≡ all
      → ts ++ (ls ++ (x ∷ [])) ≡ all ++ (x ∷ [])
  one_more x ts ls all e = sym (append_assoc ts ls (x ∷ [])) ∙ ap (λ l. l ++ (x ∷ [])) e

  Queue-arrives :
      (p : Place T.Conf) (x : Signal Variant) (ts ls all : List (Signal Variant))
      → Queue p ts ls all
      → Queue p ts (ls ++ (x ∷ [])) (all ++ (x ∷ []))
  Queue-arrives (sending u) x ts ls all e = one_more x ts ls all e
  Queue-arrives waiting x ts ls all e = one_more x ts ls all e
  Queue-arrives leaving x ts ls all e = one_more x ts ls all e
  Queue-arrives over x ts ls all e = one_more x ts ls all e
  Queue-arrives dead x ts ls all (y, e) = (y, one_more x ts (y ∷ ls) all e)

  -- A step that does not touch what was read and sent.
  moved :
      {s : Status T.Conf} {ss all : List (Signal Variant)} {l m : Link Variant T.Conf}
      (t : Taken s ss l)
      → m.received ≡ l.received
      → m.status ≡ l.status
      → Owes m.place m.done_closed t.missing
      → Queue m.place t.taken m.signals all
      → Taken s all m
  moved t same_received same_status owed queued = record {
    taken = t.taken;
    us = t.us;
    missing = t.missing;
    updates = t.updates;
    told = t.told ∙ ap (λ r. r ++ t.missing) (sym same_received);
    current = same_status ∙ t.current;
    owes = owed;
    queue = queued;
  }

  module _ (s : Status T.Conf) (ss : List (Signal Variant)) where
    pub Owes-at :
        {l : Link Variant T.Conf} {p : Place T.Conf} (t : Taken s ss l)
        → l.place ≡ p
        → Owes p l.done_closed t.missing
    Owes-at {l} t e = subst (λ p. Owes p l.done_closed t.missing) e t.owes

    pub Queue-at :
        {l : Link Variant T.Conf} {p : Place T.Conf} (t : Taken s ss l)
        → l.place ≡ p
        → Queue p t.taken l.signals ss
    Queue-at {l} t e = subst (λ p. Queue p t.taken l.signals ss) e t.queue

    -- What a signal makes of a goroutine that waits.
    read-Taken :
        {l : Link Variant T.Conf} (t : Taken s ss l) (x : Signal Variant)
        (xs : List (Signal Variant))
        → l.place ≡ waiting
        → l.signals ≡ x ∷ xs
        → Taken s ss (
            after T B (handle_properties_changed B x (copy T l.status)) (record l { signals = xs }))
    unfolding after
    read-Taken {l} t x xs e q =
        let line : t.taken ++ (x ∷ xs) ≡ ss = ap (λ ls. t.taken ++ ls) (sym q) ∙ Queue-at t e in
        let all : (t.taken ++ (x ∷ [])) ++ xs ≡ ss = append_assoc t.taken (x ∷ []) xs ∙ line in
        let none_missing : t.missing ≡ [] = Owes-at t e in
        elim (Handled-cases B (handle_properties_changed B x (copy T l.status))) [
          | inl p ↦
              rw (p, after)
                (record {
                  taken = t.taken;
                  us = t.us;
                  missing = t.missing;
                  updates = t.updates;
                  told = t.told;
                  current = t.current;
                  owes = none_missing;
                  queue = (x, line);
                })
          | inr (inl i) ↦
              rw (i, after)
                (record {
                  taken = t.taken ++ (x ∷ []);
                  us = t.us;
                  missing = t.missing;
                  updates = skip_last T B x t.updates (rw t.current at i);
                  told = t.told;
                  current = t.current;
                  owes = t.owes;
                  queue = rw e all;
                })
          | inr (inr (u, h)) ↦
              rw (h, after)
                (record {
                  taken = t.taken ++ (x ∷ []);
                  us = t.us ++ (u ∷ []);
                  missing = u ∷ [];
                  updates = take_last T B x u t.updates (rw t.current at h);
                  told =
                      ap (λ us. us ++ (u ∷ []))
                        (t.told ∙ ap (λ o. l.received ++ o) none_missing ∙ append-nil l.received);
                  current = sym (last_copy-append T B s u t.us);
                  owes = refl;
                  queue = all;
                })
        ]

    Step-Taken : {l m : Link Variant T.Conf} → Taken s ss l → Step T B l m → Taken s ss m
    Step-Taken {l} t (hand_over u e) = record {
      taken = t.taken;
      us = t.us;
      missing = [];
      updates = t.updates;
      told = t.told ∙ ap (λ o. l.received ++ o) (Owes-at t e) ∙ sym (append-nil _);
      current = t.current;
      owes = refl;
      queue = Queue-at t e;
    }
    Step-Taken t (give_up u e gone) =
        moved t refl refl (inr (gone, ap (λ o. length o) (Owes-at t e))) (Queue-at t e)
    Step-Taken t (read x xs e q) = read-Taken t x xs e q
    Step-Taken t (drained e q gone) = moved t refl refl (inl (Owes-at t e)) (Queue-at t e)
    Step-Taken t (finish e) = moved t refl refl (Owes-at t e) (Queue-at t e)
    Step-Taken t (close_conn c) = moved t refl refl t.owes t.queue
    Step-Taken {l} t (close_done c d) =
        moved t refl refl (Owes-done l.done_closed t.missing l.place t.owes) t.queue

  pub Reach-Taken :
      {s : Status T.Conf} {ss : List (Signal Variant)} {l : Link Variant T.Conf}
      → Reach T B s ss l
      → Taken s ss l
  Reach-Taken {s} started = record {
    taken = [];
    us = [];
    missing = copy T s ∷ [];
    updates = none_left;
    told = refl;
    current = refl;
    owes = refl;
    queue = refl;
  }
  Reach-Taken {s} (arrives {ss} {l} x r up room) =
      let t = Reach-Taken r in
      moved t refl refl t.owes (Queue-arrives l.place x t.taken l.signals ss t.queue)
  Reach-Taken {s} {ss} (later r st) = Step-Taken s ss (Reach-Taken r) st
