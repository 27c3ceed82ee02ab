-- ===== src/Notifications/Renderer/Raises.antt =====
-- When rendering raises.
use aucnotif.Prelude.{◌≡◌, refl, Bool, true, false, not, ◌&&◌, Option, none, some, arith, is_some}
use aucnotif.Prelude.Text.{Text}
use aucnotif.Times.{Instant}
use aucnotif.Domain.AuctionState.{AuctionState}
use aucnotif.Domain.Notifications.{
  NotificationKind, t_30m, t_15m, t_5m, change, extension, closed, NotificationDecision,
}
use aucnotif.Notifications.Renderer.{render, render_change, render_kind, title_of, changed_end}

abbrev pub is_change : NotificationKind → Bool
is_change change = true
is_change _ = false

-- There are both states, and the end time is known only in the new one.
abbrev pub end_appears : Option AuctionState → Option AuctionState → Bool
end_appears (some before) (some after) = not (is_some before.end_time) && is_some after.end_time
end_appears _ _ = false

changed_end-some :
    (now : Instant) (before after : Option Instant)
    → is_some (changed_end now before after) ≡ not (not (is_some before) && is_some after)
changed_end-some now none none = refl
changed_end-some now none (some e) = refl
changed_end-some now (some b) none = refl
changed_end-some now (some b) (some e) = refl

render_change-some :
    (title : Text) (previous : Option AuctionState) (current : AuctionState) (url : Text)
    (now : Instant)
    → is_some (render_change title previous current url now)
      ≡ not (end_appears previous (some current))
unfolding render_change
render_change-some title none current url now = refl
render_change-some title (some p) current url now =
    ground (arith, changed_end-some now p.end_time current.end_time)

render-kind :
    (k : NotificationKind) (previous : Option AuctionState) (current : AuctionState)
    (title url : Text) (now : Instant)
    → is_some (render_kind k title previous current url now)
      ≡ not (is_change k && end_appears previous (some current))
render-kind change previous current title url now =
    render_change-some title previous current url now
render-kind t_30m previous current title url now = refl
render-kind t_15m previous current title url now = refl
render-kind t_5m previous current title url now = refl
render-kind extension previous current title url now = refl
render-kind closed previous current title url now = refl

render-parts :
    (k : NotificationKind) (previous current : Option AuctionState) (url : Text)
    (label : Option Text) (now : Instant)
    → is_some (render (record { kind = k; previous = previous; current = current }) url label now)
      ≡ not (is_change k && end_appears previous current)
unfolding render
render-parts k none none url label now = ground arith
render-parts k (some p) none url label now = ground arith
render-parts k previous (some c) url label now = render-kind k previous c (title_of c label) url now

-- Rendering a decision gives a text in every case but one: a change from a state whose end time is not
-- known to one whose end time is known raises, since the old end time is formatted without a test.
pub render_raises :
    (d : NotificationDecision) (url : Text) (label : Option Text) (now : Instant)
    → is_some (render d url label now) ≡ not (is_change d.kind && end_appears d.previous d.current)
render_raises d url label now = render-parts d.kind d.previous d.current url label now
