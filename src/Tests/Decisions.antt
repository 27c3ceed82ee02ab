-- ===== src/Tests/Decisions.antt =====
-- Decisions on notifications, differences of states and polling intervals.
use aucnotif.Prelude.{
  ◌≡◌, ◌↔◌, refl, false, not, ◌&&◌, none, some, List, [], ◌∷◌, is_some, if◌then◌else◌,
}
use aucnotif.Prelude.Int.{pos, ◌-ℤ◌, ◌≤ℤ◌, int_laws}
use aucnotif.Prelude.Lists.{All}
use aucnotif.Times.{minutes}
use aucnotif.Prelude.Text.{Text, codes}
use aucnotif.Domain.AuctionState.{AuctionState}
use aucnotif.Domain.Diff.{has_changes, diff_states, default_config}
use aucnotif.Domain.Diff.Laws.{SameTracked}
use aucnotif.Domain.Notifications.{
  t_5m, change, closed, default_thresholds, crossed, evaluate_notifications, decide_as,
}
use aucnotif.Domain.Notifications.Kinds.{count_kind}
use aucnotif.Domain.Notifications.Timing.{run, last_poll, timed_once}
use aucnotif.Domain.Notifications.Keys.{HasKey, decisions-HasKey}
use aucnotif.Domain.Polling.{default_intervals, polling_interval_for}
use aucnotif.Domain.Polling.Laws.{IsOrdered, polling_interval_mono}
use aucnotif.Notifications.Renderer.{render, render_closed, title_of}
use aucnotif.Notifications.Renderer.Markup.{render-markup}
use aucnotif.Notifications.Renderer.Markup.Lines.{link_markup}
use aucnotif.Notifications.Renderer.Markup.Pieces.{markup}
use aucnotif.Notifications.Renderer.Raises.{is_change, end_appears, render_raises}
use aucnotif.Repositories.Snapshots.{snapshot_of}
use aucnotif.Services.StateMapper.{state_from_snapshot}
use aucnotif.Services.StateMapper.Reread.{reread_unchanged_iff}
use aucnotif.Tests.Data.{seen_at, end, url}

-- Five minutes before the end is at 9.7e9 microseconds.
abbrev early : AuctionState
early = seen_at 100 (pos 9000000000) (some end)

abbrev polls : List AuctionState
polls = seen_at 100 (pos 9650000000) (some end) ∷ seen_at 200 (pos 9750000000) (some end) ∷ []

timed_once_example : count_kind t_5m (run default_thresholds (pos 9000000000) early polls) ≡ (
    if crossed (pos 9000000000) (last_poll (pos 9000000000) polls) (end -ℤ minutes 5) then 1 else 0)
timed_once_example =
    timed_once default_thresholds t_5m end (pos 9000000000) (minutes 5) early polls refl
      (refl, (refl, tt)) (omega int_laws, (omega int_laws, tt))

abbrev later : AuctionState
later = seen_at 200 (pos 9750000000) (some end)

decisions-HasKey_example : All (HasKey (some 7)) (
    evaluate_notifications
      (some early)
      later
      (diff_states (some early) later default_config)
      (pos 9000000000)
      (pos 9750000000)
      default_thresholds)
decisions-HasKey_example =
    decisions-HasKey (some early) later (diff_states (some early) later default_config)
      (pos 9000000000) (pos 9750000000) default_thresholds (some 7) (λ _. refl)

abbrev endless : AuctionState
endless = seen_at 100 (pos 9000000000) none

render_raises_example :
    is_some (render (decide_as endless later change) url none (pos 0))
    ≡ not (is_change change && end_appears (some endless) (some later))
render_raises_example = render_raises (decide_as endless later change) url none (pos 0)

reread_unchanged_iff_example :
    (has_changes
        (diff_states (some (state_from_snapshot (snapshot_of 3 1 early none))) later default_config)
      ≡ false)
    ↔ SameTracked early later
reread_unchanged_iff_example = reread_unchanged_iff 3 1 early later none

ordered : IsOrdered default_intervals
ordered = record {
  day = omega int_laws;
  six_hours = omega int_laws;
  hour = omega int_laws;
  half_hour = omega int_laws;
  quarter = omega int_laws;
}

polling_interval_mono_example :
    polling_interval_for (some (minutes 20)) default_intervals
    ≤ℤ polling_interval_for (some (minutes 400)) default_intervals
polling_interval_mono_example =
    polling_interval_mono default_intervals (minutes 20) (minutes 400) ordered (omega int_laws)

abbrev angled : Text
angled = codes "<b>\"Tom\" & 'Co'</b>"

renders_closed :
    render (decide_as early later closed) url (some angled) (pos 0)
    ≡ some (render_closed (title_of later (some angled)) later url)
unfolding render
renders_closed = refl

render-markup_example :
    markup (render_closed (title_of later (some angled)) later url) ≡ link_markup
render-markup_example =
    render-markup (decide_as early later closed) url (some angled) (pos 0)
      (render_closed (title_of later (some angled)) later url) later refl renders_closed
