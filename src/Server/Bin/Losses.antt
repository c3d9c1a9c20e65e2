-- ===== src/Server/Bin/Losses.antt =====
-- What becomes of the elements that `ProfileBin::createElement` makes.
use camera_platform.Prelude.{
  ℕ, ◌+◌, if◌then◌else◌, Bool-cases, inl, inr, ◌≡◌, true, false, Bool, ap, sym, subst, ◌∷◌, arith,
}
use camera_platform.Gst.{Gst, Trace, link, bin_add}
use camera_platform.Gst.Effects.{branch, call_some}
use camera_platform.Gst.Elements.{made, settled, Account}
use camera_platform.Gst.Observe.{one_if_some}
use camera_platform.Server.Bin.{
  ProfileBin, Parts, all_made, create_element, create_parts, assemble, configure, set_some,
  set_drop, expose, drop_bin, clear_parts, branch_chain,
}

-- The three elements that the object keeps, and the four others
abbrev kept : ProfileBin → ℕ
kept b = one_if_some b.bin + one_if_some b.valve + one_if_some b.app_sink

abbrev others : Parts → ℕ
others p = one_if_some p.queue + one_if_some p.scale + one_if_some p.caps_filter + one_if_some p.enc

create_parts-made :
    (g : Gst) (b : ProfileBin) (t : Trace)
    → let r = create_parts g b t in
      (made g r.2 ≡ made g t + kept r.1 + others r.0) × (settled r.2 ≡ settled t)
unfolding create_parts made settled
create_parts-made g b t = ground arith

clear_parts-made :
    (g : Gst) (b : ProfileBin) (t : Trace)
    → let r = clear_parts b t in
      (made g r.2 ≡ made g t) × (settled r.2 ≡ settled t + kept b) × (one_if_some r.0 ≡ 0)
unfolding clear_parts made settled
clear_parts-made g b t = ground arith

configure-made :
    (g : Gst) (p : Parts) (b : ProfileBin) (t : Trace)
    → let r = configure p b t in (made g r.2 ≡ made g t) × (settled r.2 ≡ settled t) × (r.1 ≡ b)
unfolding configure set_some set_drop made settled
configure-made g p b t = ground arith

expose-made :
    (g : Gst) (p : Parts) (b : ProfileBin) (t : Trace)
    → let r = expose g p b t in (made g r.2 ≡ made g t) × (settled r.2 ≡ settled t) × (r.0 ≡ b.bin)
unfolding expose made settled
expose-made g p b t = ground arith

drop_bin-made :
    (g : Gst) (b : ProfileBin) (t : Trace)
    → let r = drop_bin b t in
      (made g r.2 ≡ made g t)
      × (settled r.2 ≡ settled t + one_if_some b.bin)
      × (one_if_some r.0 ≡ 0)
unfolding drop_bin made settled
drop_bin-made g b t = ground arith

-- Where all are made, the chain has all but the bin, and goes into the bin.
link_chain-made :
    (g : Gst) (p : Parts) (b : ProfileBin) (t : Trace)
    → all_made b p ≡ true
    → let u =
        link (branch_chain b p) ∷ (call_some (λ o. bin_add o (branch_chain b p)) b.bin b t).2 in
      (made g u ≡ made g t)
      × (settled u + one_if_some b.bin ≡ settled t + kept b + others p)
      × (one_if_some b.bin ≡ 1)
unfolding all_made branch_chain made settled
link_chain-made g p b t h = ground arith

end_with-made :
    (g : Gst) (linked : Bool) (p : Parts) (b : ProfileBin) (t : Trace)
    → one_if_some b.bin ≡ 1
    → let r = branch linked (expose g p) drop_bin b t in
      Account g 0 (one_if_some b.bin) t (one_if_some r.0) r.2
unfolding branch
end_with-made g true p b t h =
    let e = expose-made g p b t in omega (arith, e.0, e.1, ap one_if_some e.2)
end_with-made g false p b t h = omega (arith, drop_bin-made g b t)

assemble-made :
    (g : Gst) (p : Parts) (b : ProfileBin) (t : Trace)
    → all_made b p ≡ true
    → let r = assemble g p b t in Account g 0 (kept b + others p) t (one_if_some r.0) r.2
unfolding assemble
assemble-made g p b t h =
    let c = configure p b t in
    let same = configure-made g p b t in
    let whole = subst (λ d. all_made d p ≡ true) (sym same.2) h in
    let u =
      link (branch_chain c.1 p)
      ∷ (call_some (λ o. bin_add o (branch_chain c.1 p)) c.1.bin c.1 c.2).2 in
    let chained = link_chain-made g p c.1 c.2 whole in
    omega (
      arith,
      same.0,
      same.1,
      ap kept same.2,
      chained,
      end_with-made g (g.succeeds _ (link (branch_chain c.1 p))) p c.1 u chained.2,
    )

-- What a creation leaves behind: where one of the seven could not be made, those of the four others
-- that were.
unfoldable pub left_behind : Gst → ProfileBin → Trace → ℕ
left_behind g b t = let r = create_parts g b t in if all_made r.1 r.0 then 0 else others r.0

-- Of the bin and the elements that `createElement` makes, each is released or added to the bin, but the
-- bin that it answers; and where one of the seven could not be made, the queue, the scaler, the filter
-- and the encoder, as far as they were, are left behind. This holds whatever GStreamer answers.
pub create_element-made :
    (g : Gst) (b : ProfileBin) (t : Trace)
    → let r = create_element g b t in Account g (left_behind g b t) 0 t (one_if_some r.0) r.2
unfolding create_element left_behind branch
create_element-made g b t =
    let c = create_parts g b t in
    elim (Bool-cases (all_made c.1 c.0)) [
      | inl e ↦ rw e (omega (arith, create_parts-made g b t, assemble-made g c.0 c.1 c.2 e))
      | inr e ↦ rw e (omega (arith, create_parts-made g b t, clear_parts-made g c.1 c.2))
    ]
