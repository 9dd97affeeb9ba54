-- ===== src/Cluster/Delete/Stages.antt =====
-- The two kinds of step of `reconcileDelete` in internal/controller/ncxinfracluster_controller.go,
-- a single ID and a map of IDs, each with its plan.
use cluster_api_provider_nvi.Common.{
  String, false, List, [], ◌∷◌, ◌++◌, ◌≡◌, refl, sym, ap, ◌∙◌, append_assoc, append-nil, is_empty,
  Bool-cases, inl, inr, if◌then◌else◌,
}
use cluster_api_provider_nvi.Common.Dict.{Dict, erase, NodupKeys, erase_first}
use cluster_api_provider_nvi.Common.Exec.{Outcome, ok, failed, panic, continue, modify, ◌>>◌}
use cluster_api_provider_nvi.Api.Cluster.{NcxInfraClusterStatus}
use cluster_api_provider_nvi.Sdk.Wire.{Call}
use cluster_api_provider_nvi.Kube.{Env}
use cluster_api_provider_nvi.Cluster.Scope.{ClusterWorld, ClusterExec}
use cluster_api_provider_nvi.Cluster.Delete.{
  deleted, delete_resource, IdField, MapField, with_status, delete_id, delete_entries, delete_map,
}
use cluster_api_provider_nvi.Cluster.Delete.Progress.{Plan, status_of, Stopped, Progress, Frame}

-- Nothing for an empty ID, its delete call for any other.
abbrev pub id_plan : IdField → Plan
id_plan f s = if is_empty (f.get s) then [] else f.call (f.get s) ∷ []

-- A delete call for each entry.
abbrev pub entry_calls : MapField → Dict → List Call
entry_calls f [] = []
entry_calls f ((key, id) ∷ rest) = f.call id ∷ entry_calls f rest

abbrev pub map_plan : MapField → Plan
map_plan f s = entry_calls f (f.get s)

abbrev called : ClusterWorld → Call → ClusterWorld
called w c = record w { calls = w.calls ++ c ∷ [] }

module _ (env : Env) where
  delete_resource_lem :
      (kind id : String) (c : Call) (w : ClusterWorld)
      → delete_resource env kind id c w ≡ (deleted kind id (env.cloud w.calls c), called w c)
  unfolding delete_resource
  delete_resource_lem kind id c w = refl

  module _ (f : IdField) (w : ClusterWorld)
      (get-put : (s : NcxInfraClusterStatus) → f.get (f.put "" s) ≡ "")
      (present : is_empty (f.get w.object.status) ≡ false) where
    id_call : Call
    id_call = f.call (f.get w.object.status)

    id_plan_present : id_plan f (status_of w) ≡ id_call ∷ []
    unfolding id_call
    id_plan_present = rw present

    id_Stopped : Stopped (id_plan f) w (called w id_call)
    id_Stopped = (
      [],
      id_call,
      [],
      record { planned = id_plan_present; remaining = id_plan_present; made = refl },
    )

    id_Progress :
        (r : Outcome String (Unit {0}))
        → Progress
            (id_plan f)
            w
            (continue r (λ _. modify (with_status (f.put ""))) (called w id_call))
    id_Progress (ok _) = record {
      remaining = ap (λ id. if is_empty id then [] else f.call id ∷ []) (get-put (status_of w));
      made = ap (λ l. w.calls ++ l) (sym id_plan_present);
    }
    id_Progress (failed e) = id_Stopped
    id_Progress panic = id_Stopped

  -- A single ID: its call is made once, and only a success clears it.
  pub delete_id-Progress :
      (f : IdField)
      → ((s : NcxInfraClusterStatus) → f.get (f.put "" s) ≡ "")
      → (w : ClusterWorld) → Progress (id_plan f) w (delete_id env f w)
  unfolding delete_id delete_resource id_call
  delete_id-Progress f get-put w = elim (Bool-cases (is_empty (f.get w.object.status))) [
    | inl absent ↦ rw absent (record { remaining = rw absent; made = rw (absent, append-nil) })
    | inr present ↦ rw present (id_Progress f w get-put present _)
  ]

  module _ {X : Type 0} (f : IdField) where
    Frame-id_continue :
        (read : NcxInfraClusterStatus → X)
        → ((s : NcxInfraClusterStatus) → read (f.put "" s) ≡ read s)
        → (r : Outcome String (Unit {0})) (w : ClusterWorld)
        → read (status_of (continue r (λ _. modify (with_status (f.put ""))) w).1)
          ≡ read (status_of w)
    Frame-id_continue read h (ok _) w = h (status_of w)
    Frame-id_continue read h (failed e) w = refl
    Frame-id_continue read h panic w = refl

    -- It leaves alone what does not read its field.
    pub Frame-delete_id :
        {read : NcxInfraClusterStatus → X}
        → ((s : NcxInfraClusterStatus) → read (f.put "" s) ≡ read s)
        → Frame read (delete_id env f)
    unfolding delete_id delete_resource
    Frame-delete_id {read} h = record {
      at = λ w. elim (Bool-cases (is_empty (f.get w.object.status))) [
        | inl absent ↦ rw absent
        | inr present ↦ rw present (Frame-id_continue read h _ _)
      ];
    }

  -- The state behind a successful deletion of one entry.
  abbrev erased : MapField → String → ClusterWorld → ClusterWorld
  erased f key w = with_status (λ s. f.put (erase key (f.get s)) s) w

  module _ (f : MapField) (key id : String) (rest : Dict) (w : ClusterWorld)
      (here : f.get w.object.status ≡ (key, id) ∷ rest) where
    map_Stopped_here : Stopped (map_plan f) w (called w (f.call id))
    map_Stopped_here = (
      [],
      f.call id,
      entry_calls f rest,
      record {
        planned = ap (entry_calls f) here;
        remaining = ap (entry_calls f) here;
        made = refl;
      },
    )

    map_Stopped_later :
        (w' : ClusterWorld)
        → f.get (erased f key w).object.status ≡ rest
        → Stopped (map_plan f) (erased f key (called w (f.call id))) w'
        → Stopped (map_plan f) w w'
    map_Stopped_later w' left (done, c, more, s) = (
      f.call id ∷ done,
      c,
      more,
      record {
        planned =
            ap (entry_calls f) here
            ∙ ap (λ l. f.call id ∷ l) (sym (ap (entry_calls f) left) ∙ s.planned);
        remaining = s.remaining;
        made = s.made ∙ append_assoc w.calls (f.call id ∷ []) (done ++ c ∷ []);
      },
    )

    map_Progress_later :
        (r : Outcome String (Unit {0}) × ClusterWorld)
        → f.get (erased f key w).object.status ≡ rest
        → Progress (map_plan f) (erased f key (called w (f.call id))) r
        → Progress (map_plan f) w r
    map_Progress_later (ok _, w') left p = record {
      remaining = p.remaining;
      made =
          p.made
          ∙ append_assoc w.calls (f.call id ∷ []) _
          ∙ ap (λ l. w.calls ++ f.call id ∷ l) (ap (entry_calls f) left)
          ∙ ap (λ l. w.calls ++ l) (sym (ap (entry_calls f) here));
    }
    map_Progress_later (failed e, w') left p = map_Stopped_later w' left p
    map_Progress_later (panic, w') left p = map_Stopped_later w' left p

    map_Progress_step :
        (r : Outcome String (Unit {0}))
        → f.get (erased f key w).object.status ≡ rest
        → Progress
            (map_plan f)
            (erased f key (called w (f.call id)))
            (delete_entries env f rest (erased f key (called w (f.call id))))
        → Progress (map_plan f) w (
            continue r
              (λ _.
                modify (with_status (λ s. f.put (erase key (f.get s)) s))
                >> delete_entries env f rest)
              (called w (f.call id)))
    map_Progress_step (ok _) left p = map_Progress_later _ left p
    map_Progress_step (failed e) left p = map_Stopped_here
    map_Progress_step panic left p = map_Stopped_here

  module _ (f : MapField)
      (get-put : (m : Dict) (s : NcxInfraClusterStatus) → f.get (f.put m s) ≡ m) where
    delete_entries-Progress :
        (entries : Dict) (w : ClusterWorld)
        → f.get w.object.status ≡ entries
        → NodupKeys entries
        → Progress (map_plan f) w (delete_entries env f entries w)
    unfolding delete_entries delete_resource
    delete_entries-Progress [] w here u = record {
      remaining = ap (entry_calls f) here;
      made = sym (ap (λ l. w.calls ++ l) (ap (entry_calls f) here) ∙ append-nil w.calls);
    }
    delete_entries-Progress ((key, id) ∷ rest) w here (fresh, u) =
        let left : f.get (erased f key w).object.status ≡ rest =
          get-put _ _ ∙ ap (erase key) here ∙ erase_first key id rest fresh in
        map_Progress_step f key id rest w here _ left
          (delete_entries-Progress rest (erased f key (called w (f.call id))) left u)

    -- A map: one call for each entry, and each success erases its entry.
    pub delete_map-Progress :
        (w : ClusterWorld)
        → NodupKeys (f.get w.object.status)
        → Progress (map_plan f) w (delete_map env f w)
    unfolding delete_map
    delete_map-Progress w u = delete_entries-Progress (f.get w.object.status) w refl u

  module _ {X : Type 0} (f : MapField) (read : NcxInfraClusterStatus → X)
      (h : (m : Dict) (s : NcxInfraClusterStatus) → read (f.put m s) ≡ read s) where
    Frame-map_continue :
        (key : String) (n : ClusterExec (Unit {0})) (r : Outcome String (Unit {0}))
        (w : ClusterWorld)
        → read (status_of (n (erased f key w)).1) ≡ read (status_of (erased f key w))
        → read (
            status_of
              (continue r
                (λ _. modify (with_status (λ s. f.put (erase key (f.get s)) s)) >> n)
                w).1)
          ≡ read (status_of w)
    Frame-map_continue key n (ok _) w p = p ∙ h _ _
    Frame-map_continue key n (failed e) w p = refl
    Frame-map_continue key n panic w p = refl

    delete_entries-Keeps :
        (entries : Dict) (w : ClusterWorld)
        → read (status_of (delete_entries env f entries w).1) ≡ read (status_of w)
    unfolding delete_entries delete_resource
    delete_entries-Keeps [] w = refl
    delete_entries-Keeps ((key, id) ∷ rest) w =
        Frame-map_continue key (delete_entries env f rest) _ _ (delete_entries-Keeps rest _)

  pub Frame-delete_map :
      {X : Type 0} (f : MapField) {read : NcxInfraClusterStatus → X}
      → ((m : Dict) (s : NcxInfraClusterStatus) → read (f.put m s) ≡ read s)
      → Frame read (delete_map env f)
  unfolding delete_map
  Frame-delete_map f {read} h = record {
    at = λ w. delete_entries-Keeps f read h (f.get w.object.status) w;
  }
