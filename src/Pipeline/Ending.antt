-- ===== src/Pipeline/Ending.antt =====
-- Where no data node is added, the loop of buildForAppendOrRecovery ends: each round that fails
-- takes a node out of the pipeline or uses up a retry.
use libhdfs.Prelude.{
  ◌≢◌, ℕ, zero, suc, ◌+◌, ◌-◌, ltb, ◌≡◌, ◌<◌, refl, ◌∙◌, Bool, true, false, not, ◌&&◌, List, [],
  ◌∷◌, Option, none, some, Exn, if◌then◌else◌, arith, get_elem?, length, inl, inr, Bool-cases,
  Option-cases,
}
use libhdfs.Pipeline.Calls.{
  Outcome, done, failed, broken, stuck, and_then, handle, Action, LeavesOr, is_rebuildable,
}
use libhdfs.Pipeline.State.{Datanode, Block, PipelineImpl, Network, is_setup_create, is_close}
use libhdfs.Pipeline.Frames.{
  Anywhere, Anywhere-IsTrace, IsFrame, next, answered-Leaves, deref-Leaves,
  create_block_output_stream-Leaves,
}
use libhdfs.Pipeline.Recovery.{
  erase_at, is_none, remove_bad, try_building, publish, build_loop, build_for_append_or_recovery,
}

-- The outcome is not for want of fuel; and what holds of the state if the call returns or throws.
abbrev pub Ends : {S A : Type 0} → Outcome S A → (S → Type 0) → (S → Type 0) → Type 0
Ends (done a t) P Q = P t
Ends (failed e t) P Q = Q t
Ends broken P Q = Unit
Ends stuck P Q = ⊥

abbrev pub IsSettled : {S A : Type 0} → Outcome S A → Type 0
IsSettled o = Ends o (λ _. Unit) (λ _. Unit)

and_then-Ends :
    {S A B : Type 0} (P Q P' Q' : S → Type 0) (o : Outcome S A) (f : A → Action S B)
    → Ends o P Q
    → ((t : S) → Q t → Q' t)
    → ((a : A) (t : S) → P t → Ends (f a t) P' Q')
    → Ends (and_then o f) P' Q'
and_then-Ends P Q P' Q' (done a t) f h w k = k a t h
and_then-Ends P Q P' Q' (failed e t) f h w k = w t h
and_then-Ends P Q P' Q' broken f h w k = tt
and_then-Ends P Q P' Q' stuck f h w k = h

handle-Ends :
    {S A : Type 0} (P Q P' Q' : S → Type 0) (o : Outcome S A) (f : Exn → Action S A)
    → Ends o P Q
    → ((t : S) → P t → P' t)
    → ((e : Exn) (t : S) → Q t → Ends (f e t) P' Q')
    → Ends (handle o f) P' Q'
handle-Ends P Q P' Q' (done a t) f h w k = w t h
handle-Ends P Q P' Q' (failed e t) f h w k = k e t h
handle-Ends P Q P' Q' broken f h w k = tt
handle-Ends P Q P' Q' stuck f h w k = h

of_leaves : {S A : Type 0} (P : S → Type 0) (o : Outcome S A) → LeavesOr ⊥ o P → Ends o P P
of_leaves P (done a t) h = h
of_leaves P (failed e t) h = h
of_leaves P broken h = h
of_leaves P stuck h = h

abbrev extra : Option ℕ → ℕ
extra none = 1
extra (some i) = 0

erased_length :
    {A : Type 0} (i : ℕ) (xs : List A) (x : A)
    → get_elem? xs i ≡ some x
    → length (erase_at i xs) + 1 ≡ length xs
unfolding erase_at
erased_length i [] x e = ground arith
erased_length zero (y ∷ ys) x e = omega arith
erased_length (suc i) (y ∷ ys) x e = omega (arith, erased_length i ys x e)

module _ {World : Type 0} where
  abbrev Fixed : PipelineImpl World → PipelineImpl World → Type 0
  Fixed s t = (t.nodes ≡ s.nodes) × (t.can_add_datanode ≡ s.can_add_datanode)

  Fixed-IsFrame : IsFrame Anywhere Fixed
  Fixed-IsFrame = record {
    stays = λ s. (refl, refl);
    follows = λ s t u p q. (q.0 ∙ p.0, q.1 ∙ p.1);
    here = λ w. tt;
    elsewhere = λ s w i c g. (refl, refl);
  }

  abbrev Removed : PipelineImpl World → PipelineImpl World → Type 0
  Removed s t =
      (t.can_add_datanode ≡ s.can_add_datanode)
      × (length t.nodes + 1 ≡ length s.nodes + extra s.error_index)

  after_removal :
      (excluded : List Datanode) (s : PipelineImpl World) (i : Option ℕ)
      → s.error_index ≡ i
      → Ends (remove_bad excluded i s) (Removed s) (λ _. Unit)
  unfolding remove_bad
  after_removal excluded s none e = (refl, rw e refl)
  after_removal excluded s (some i) e = elim (Option-cases s.last_block) [
    | inl b ↦ rw b tt
    | inr (block, b) ↦ rw b (elim (Option-cases (get_elem? s.nodes i)) [
      | inl g ↦ rw g tt
      | inr (bad, g) ↦ rw (g, e) (ground (arith, erased_length i s.nodes bad g))
    ])
  ]

  module _ (network : Network World) where
    try_building-Leaves :
        (excluded : List Datanode) (recovery : Bool) (s : PipelineImpl World)
        → s.can_add_datanode ≡ false
        → LeavesOr ⊥ (try_building network excluded recovery s) (Fixed s)
    unfolding try_building
    try_building-Leaves excluded recovery s h =
        let short : (not (is_setup_create s.stage)
              && not (is_close s.stage)
              && (ltb (length s.nodes) s.replication && s.can_add_datanode))
            ≡ false =
          ground arith in
        rw short (
          next ⊥ Fixed Fixed-IsFrame s _ _ (deref-Leaves ⊥ Fixed Fixed-IsFrame s.last_block s)
            λ block v.
              next ⊥ Fixed Fixed-IsFrame v _ _
                (answered-Leaves ⊥ Fixed Fixed-IsFrame v
                  (network.update_block_for_pipeline block v.world) tt)
                λ updated w.
                  next ⊥ Fixed Fixed-IsFrame w _ _
                    (create_block_output_stream-Leaves ⊥ Fixed Fixed-IsFrame network
                      (Anywhere-IsTrace network) updated.token updated.generation_stamp recovery w)
                    λ _ x. (refl, refl))

    build_loop-IsSettled :
        (fuel retry : ℕ) (excluded : List Datanode) (recovery : Bool) (s : PipelineImpl World)
        → s.can_add_datanode ≡ false
        → retry + length s.nodes + extra s.error_index < fuel
        → IsSettled (build_loop network fuel retry excluded recovery s)
    unfolding build_loop
    build_loop-IsSettled zero retry excluded recovery s h m = absurd (omega arith)
    build_loop-IsSettled (suc fuel) retry excluded recovery s h m =
        and_then-Ends (Removed s) (λ _. Unit) (λ _. Unit) (λ _. Unit) _ _
          (after_removal excluded s s.error_index refl) (λ t _. tt)
          λ left t p.
            handle-Ends (Fixed t) (Fixed t) (λ _. Unit) (λ _. Unit) _ _
              (of_leaves (Fixed t) _ (try_building-Leaves left recovery t (p.0 ∙ h))) (λ u _. tt)
              λ e u q.
                let retry' = if is_none u.error_index then retry - 1 else retry in
                elim (Bool-cases (is_rebuildable e)) [
                  | inr b ↦ rw b tt
                  | inl b ↦ rw b (elim (Bool-cases (ltb 0 retry')) [
                    | inr c ↦ rw c tt
                    | inl c ↦ rw c (
                        build_loop-IsSettled fuel retry' left true u (q.1 ∙ (p.0 ∙ h))
                          (rw q.0 (ground arith)))
                  ])
                ]

    publish-Leaves :
        (updated : Block) (s : PipelineImpl World)
        → LeavesOr ⊥ (publish network updated s) (λ _. Unit)
    unfolding publish
    publish-Leaves updated s =
        next ⊥ (λ _ _. Unit) anywhere s _ _ (deref-Leaves ⊥ (λ _ _. Unit) anywhere s.last_block s)
          λ block t.
            next ⊥ (λ _ _. Unit) anywhere t _ _
              (answered-Leaves ⊥ (λ _ _. Unit) anywhere t (network.update_pipeline _ _ _ _ t.world)
                tt)
              λ _ u. tt
      where
        anywhere : IsFrame {World = World} Anywhere (λ _ _. Unit)
        anywhere = record {
          here = λ _. tt;
          stays = λ _. tt;
          follows = λ _ _ _ _ _. tt;
          elsewhere = λ _ _ _ _ _. tt;
        }

    settled : {A : Type 0} (o : Outcome (PipelineImpl World) A) → IsSettled o → o ≢ stuck
    settled (done a t) h = λ e. ground arith
    settled (failed x t) h = λ e. ground arith
    settled broken h = λ e. ground arith
    settled stuck h = absurd h

    -- Where no data node may be added, building the pipeline for an append or a recovery ends, whatever
    -- the network and the name node answer: the fuel does not run out if it exceeds the retries and
    -- the nodes of the pipeline by two.
    pub build_for_append_or_recovery-ends :
        (fuel : ℕ) (recovery : Bool) (s : PipelineImpl World)
        → s.can_add_datanode ≡ false
        → s.block_write_retry + length s.nodes + 1 < fuel
        → build_for_append_or_recovery network fuel recovery s ≢ stuck
    unfolding build_for_append_or_recovery
    build_for_append_or_recovery-ends fuel recovery s h m = settled _ (
        and_then-Ends (λ _. Unit) (λ _. Unit) (λ _. Unit) (λ _. Unit) _ _
          (build_loop-IsSettled fuel s.block_write_retry [] recovery s h (ground arith)) (λ t _. tt)
          λ updated t _. of_leaves (λ _. Unit) _ (publish-Leaves updated t))
