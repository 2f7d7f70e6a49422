-- ===== src/Csi/Node/Lifecycle.antt =====
-- What sequences of calls of the node service leave mounted.
use union_csi.Base.{
  String, Option, none, some, List, [], ◌∷◌, ◌≡◌, ◌≢◌, refl, sym, ap, ◌∙◌, arith, ◌==◌, ==_iff,
  string_eq, Bool-cases, Option-cases, is_empty, inl, inr, All,
}
use union_csi.Csi.{NodeCapType, NodePublishVolumeRequest, NodeUnpublishVolumeRequest}
use union_csi.Csi.Controller.{path_publish_context_key}
use union_csi.Csi.Node.{
  lookup, publish_options, mount_reply, publish_from, node_publish_volume, node_unpublish_volume,
}
use union_csi.Csi.Node.Calls.{serve, serve_all}
use union_csi.Csi.Node.Request.{Request, target_of}
use union_csi.Csi.Status.{Reply, replied, status, crash}
use union_csi.Csi.Validators.{
  NodeValidator, node_publish_volume_request_validate, node_unpublish_volume_request_validate,
}
use union_csi.Failure.{ok}
use union_csi.Mount.{MountUtils, PublishOptions, unpublish}
use union_csi.Mount.Publishing.{IsMountTable}
use union_csi.Mount.Unpublishing.{IsCleaning, publish_other, unpublish_other, unpublish_done}

-- The request that takes off again what a request mounts.
abbrev pub undo : NodePublishVolumeRequest → NodeUnpublishVolumeRequest
undo req = record { volume_id = req.volume_id; target_path = req.target_path }

module _ (U : MountUtils) (device : U.World → String → Option String) (T : IsMountTable U device)
    (L : IsCleaning U device) where
  -- The path has the device that it had.
  abbrev Same : String → U.World → U.World → Type 0
  Same p w w' = device w' p ≡ device w p

  publish_from_options :
      (req : NodePublishVolumeRequest) (source : String) (w : U.World) (p : String)
      → p ≢ req.target_path
      → (r : Reply (Option PublishOptions)) → publish_options req ≡ r
      → Same p w (publish_from U req source w).1
  unfolding publish_from
  publish_from_options req source w p away (replied o) e =
      rw (e, publish_from) (publish_other U device T source req.target_path o w p away)
  publish_from_options req source w p away (status c) e = rw (e, publish_from) refl
  publish_from_options req source w p away crash e = rw (e, publish_from) refl

  -- From where the request is let through.
  node_publish_reply :
      (v : NodeValidator) (req : NodePublishVolumeRequest) (w : U.World) (p : String)
      → p ≢ req.target_path
      → (r : Reply (Unit {0})) → node_publish_volume_request_validate v req ≡ r
      → Same p w (node_publish_volume U v req w).1
  unfolding node_publish_volume
  node_publish_reply v req w p away (status c) e = rw (e, node_publish_volume) refl
  node_publish_reply v req w p away crash e = rw (e, node_publish_volume) refl
  node_publish_reply v req w p away (replied u) e =
      elim (Bool-cases (is_empty req.publish_context)) [
        | inl empty ↦ rw (e, empty, node_publish_volume) refl
        | inr given ↦ elim (Option-cases (lookup req.publish_context path_publish_context_key)) [
          | inl none_ ↦ rw (e, given, none_, node_publish_volume) refl
          | inr (source, found) ↦
              rw (e, given, found, node_publish_volume)
                (publish_from_options req source w p away (publish_options req) refl)
        ]
      ]

  node_publish_other :
      (v : NodeValidator) (req : NodePublishVolumeRequest) (w : U.World) (p : String)
      → p ≢ req.target_path
      → Same p w (node_publish_volume U v req w).1
  node_publish_other v req w p away =
      node_publish_reply v req w p away (node_publish_volume_request_validate v req) refl

  node_unpublish_reply :
      (req : NodeUnpublishVolumeRequest) (w : U.World)
      → (r : Reply (Unit {0})) → node_unpublish_volume_request_validate req ≡ r
      → ((p : String) → p ≢ req.target_path → Same p w (node_unpublish_volume U req w).1)
        × ((node_unpublish_volume U req w).0 ≡ replied tt
            → device (node_unpublish_volume U req w).1 req.target_path ≡ none)
  unfolding node_unpublish_volume mount_reply
  node_unpublish_reply req w (status c) e =
      (λ p away. rw (e, node_unpublish_volume) refl, λ h. absurd (ground (arith, e)))
  node_unpublish_reply req w crash e =
      (λ p away. rw (e, node_unpublish_volume) refl, λ h. absurd (ground (arith, e)))
  node_unpublish_reply req w (replied u) e = (
    λ p away. rw (e, node_unpublish_volume) (unpublish_other U device L req.target_path w p away),
    λ h.
        let fine : (unpublish U req.target_path w).0 ≡ ok tt = ground (arith, e) in
        rw (e, node_unpublish_volume) (unpublish_done U device L req.target_path w fine),
  )

  node_unpublish_lem :
      (req : NodeUnpublishVolumeRequest) (w : U.World)
      → ((p : String) → p ≢ req.target_path → Same p w (node_unpublish_volume U req w).1)
        × ((node_unpublish_volume U req w).0 ≡ replied tt
            → device (node_unpublish_volume U req w).1 req.target_path ≡ none)
  node_unpublish_lem req w =
      node_unpublish_reply req w (node_unpublish_volume_request_validate req) refl

  -- Where nothing was mounted at the target path of a NodePublishVolume request, and a
  -- NodeUnpublishVolume of that path succeeds after it, every path has the device that it had before
  -- both, whatever the first call answered.
  pub node_unpublish-node_publish :
      (v : NodeValidator) (req : NodePublishVolumeRequest) (w : U.World)
      → device w req.target_path ≡ none
      → let w1 = (node_publish_volume U v req w).1 in
        let r = node_unpublish_volume U (undo req) w1 in
        r.0 ≡ replied tt → (p : String) → device r.1 p ≡ device w p
  node_unpublish-node_publish v req w bare h p =
      let w1 = (node_publish_volume U v req w).1 in
      let (others, gone) = node_unpublish_lem (undo req) w1 in
      elim (Bool-cases (p == req.target_path)) [
        | inl same ↦ rw ((==_iff p req.target_path).0 same) (gone h ∙ sym bare)
        | inr away ↦
            let differs : p ≢ req.target_path =
              λ e. ground (arith, (==_iff p req.target_path).1 e) in
            others p differs ∙ node_publish_other v req w p differs
      ]

  module _ (in_order : List NodeCapType → List NodeCapType) (node_id : String)
      (v : NodeValidator) where
    serve_other :
        (req : Request) (w : U.World) (p : String)
        → target_of req ≢ some p
        → Same p w (serve in_order U node_id v req w).1
    unfolding serve
    serve_other (Request.node_publish_volume req) w p away =
        node_publish_other v req w p (λ e. away (ap some (sym e)))
    serve_other (Request.node_unpublish_volume req) w p away =
        (node_unpublish_lem req w).0 p (λ e. away (ap some (sym e)))
    serve_other Request.node_stage_volume w p away = refl
    serve_other Request.node_unstage_volume w p away = refl
    serve_other Request.node_get_volume_stats w p away = refl
    serve_other Request.node_expand_volume w p away = refl
    serve_other Request.node_get_capabilities w p away = refl
    serve_other Request.node_get_info w p away = refl

    -- However many requests the node service serves one after the other, a path that none of them
    -- names as its target has the device that it had.
    pub serve_all_other :
        (reqs : List Request) (w : U.World) (p : String)
        → All (λ req. target_of req ≢ some p) reqs
        → device (serve_all in_order U node_id v reqs w) p ≡ device w p
    serve_all_other [] w p away = refl
    serve_all_other (req ∷ reqs) w p (away, later) =
        serve_all_other reqs (serve in_order U node_id v req w).1 p later ∙ serve_other req w p away
