-- ===== src/Cluster/Delete/Progress.antt =====
-- What a step of the teardown in internal/controller/ncxinfracluster_controller.go owes: either
-- it makes all the calls that the status still asks for, or it stops at one of them, and then the
-- status asks for that call and the later ones. Steps on separate parts of the status compose.
use cluster_api_provider_nvi.Common.{
  String, List, [], ◌∷◌, ◌++◌, ◌≡◌, refl, sym, ap, ◌∙◌, append_assoc,
}
use cluster_api_provider_nvi.Common.Exec.{Outcome, ok, failed, panic, continue, ◌>>◌}
use cluster_api_provider_nvi.Api.Cluster.{NcxInfraClusterStatus}
use cluster_api_provider_nvi.Sdk.Wire.{Call}
use cluster_api_provider_nvi.Cluster.Scope.{ClusterWorld, ClusterExec}

-- The calls that a status still asks for.
abbrev pub Plan : Type 0
Plan = NcxInfraClusterStatus → List Call

abbrev pub status_of : ClusterWorld → NcxInfraClusterStatus
status_of w = w.object.status

-- Stopped at `call`: what stands before it is done, it and the rest are still asked for.
pub record StoppedAt (plan : Plan) (w w' : ClusterWorld) (done : List Call) (call : Call)
    (rest : List Call) : Type 0 where
  pub planned : plan (status_of w) ≡ done ++ call ∷ rest
  pub remaining : plan (status_of w') ≡ call ∷ rest
  pub made : w'.calls ≡ w.calls ++ (done ++ call ∷ [])

abbrev pub Stopped : Plan → ClusterWorld → ClusterWorld → Type 0
Stopped plan w w' =
    (done : List Call) × (call : Call) × (rest : List Call) × StoppedAt plan w w' done call rest

pub record Finished (plan : Plan) (w w' : ClusterWorld) : Type 0 where
  pub remaining : plan (status_of w') ≡ []
  pub made : w'.calls ≡ w.calls ++ plan (status_of w)

abbrev pub Progress : Plan → ClusterWorld → Outcome String (Unit {0}) × ClusterWorld → Type 0
Progress plan w (ok _, w') = Finished plan w w'
Progress plan w (failed e, w') = Stopped plan w w'
Progress plan w (panic, w') = Stopped plan w w'

-- The step leaves alone what `read` reads of the status.
pub record Frame {A X : Type 0} (read : NcxInfraClusterStatus → X) (m : ClusterExec A)
    : Type 0 where
  pub at : (w : ClusterWorld) → read (status_of (m w).1) ≡ read (status_of w)

module _ {X : Type 0} where
  Frame-continue :
      (read : NcxInfraClusterStatus → X) (n : ClusterExec (Unit {0}))
      (r : Outcome String (Unit {0})) (w : ClusterWorld)
      → read (status_of (n w).1) ≡ read (status_of w)
      → read (status_of (continue r (λ _. n) w).1) ≡ read (status_of w)
  Frame-continue read n (ok _) w h = h
  Frame-continue read n (failed e) w h = refl
  Frame-continue read n panic w h = refl

  infixr 20 ◌⨾◌
  pub ◌⨾◌ :
      {read : NcxInfraClusterStatus → X} {m n : ClusterExec (Unit {0})}
      → Frame read m
      → Frame read n
      → Frame read (m >> n)
  ◌⨾◌ {read} {m} {n} f g = record {
    at = λ w. let (r, w') = m w in Frame-continue read n r w' (g.at w') ∙ f.at w;
  }

module _ (t u : Plan) where
  abbrev pub both : Plan
  both s = t s ++ u s

  Stopped-first :
      (w w' : ClusterWorld)
      → u (status_of w') ≡ u (status_of w)
      → Stopped t w w'
      → Stopped both w w'
  Stopped-first w w' keep (done, call, rest, s) = (
    done,
    call,
    rest ++ u (status_of w),
    record {
      planned =
          ap (λ l. l ++ u (status_of w)) s.planned
          ∙ append_assoc done (call ∷ rest) (u (status_of w));
      remaining = ap (λ l. l ++ u (status_of w')) s.remaining ∙ ap (λ l. call ∷ (rest ++ l)) keep;
      made = s.made;
    },
  )

  module _ (w w' w'' : ClusterWorld) (first : Finished t w w')
      (keep_u : u (status_of w') ≡ u (status_of w))
      (keep_t : t (status_of w'') ≡ t (status_of w')) where
    Stopped-second : Stopped u w' w'' → Stopped both w w''
    Stopped-second (done, call, rest, s) = (
      t (status_of w) ++ done,
      call,
      rest,
      record {
        planned =
            ap (λ l. t (status_of w) ++ l) (sym keep_u ∙ s.planned)
            ∙ sym (append_assoc (t (status_of w)) done (call ∷ rest));
        remaining = ap (λ l. l ++ u (status_of w'')) (keep_t ∙ first.remaining) ∙ s.remaining;
        made =
            s.made
            ∙ ap (λ l. l ++ (done ++ call ∷ [])) first.made
            ∙ append_assoc w.calls (t (status_of w)) (done ++ call ∷ [])
            ∙ ap (λ l. w.calls ++ l) (sym (append_assoc (t (status_of w)) done (call ∷ [])));
      },
    )

    Finished-both : Finished u w' w'' → Finished both w w''
    Finished-both s = record {
      remaining = ap (λ l. l ++ u (status_of w'')) (keep_t ∙ first.remaining) ∙ s.remaining;
      made =
          s.made
          ∙ ap (λ l. l ++ u (status_of w')) first.made
          ∙ append_assoc w.calls (t (status_of w)) (u (status_of w'))
          ∙ ap (λ l. w.calls ++ (t (status_of w) ++ l)) keep_u;
    }

    Progress-second :
        (r : Outcome String (Unit {0})) → Progress u w' (r, w'') → Progress both w (r, w'')
    Progress-second (ok _) p = Finished-both p
    Progress-second (failed e) p = Stopped-second p
    Progress-second panic p = Stopped-second p

  Progress-continue :
      (n : ClusterExec (Unit {0})) (w w' : ClusterWorld) (r : Outcome String (Unit {0}))
      → Progress t w (r, w')
      → u (status_of w') ≡ u (status_of w)
      → Progress u w' (n w')
      → t (status_of (n w').1) ≡ t (status_of w')
      → Progress both w (continue r (λ _. n) w')
  Progress-continue n w w' (ok _) p keep_u q keep_t =
      let (r'', w'') = n w' in Progress-second w w' w'' p keep_u keep_t r'' q
  Progress-continue n w w' (failed e) p keep_u q keep_t = Stopped-first w w' keep_u p
  Progress-continue n w w' panic p keep_u q keep_t = Stopped-first w w' keep_u p

-- One step behind another: the calls of the first plan and then those of the second.
pub Progress-then :
    {t u : Plan} {m n : ClusterExec (Unit {0})}
    → Frame u m
    → Frame t n
    → (w : ClusterWorld) → Progress t w (m w)
    → Progress u (m w).1 (n (m w).1)
    → Progress (both t u) w ((m >> n) w)
Progress-then {t} {u} {m} {n} fu ft w p q =
    let (r, w') = m w in Progress-continue t u n w w' r p (fu.at w) q (ft.at w')
