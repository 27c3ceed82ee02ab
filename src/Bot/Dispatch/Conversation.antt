-- ===== src/Bot/Dispatch/Conversation.antt =====
-- The conversation between two updates: while a name is awaited, it is known for which auction.
use aucnotif.Prelude.{
  ◌⊎◌, ℕ, ◌≡◌, refl, Bool, true, false, ◌&&◌, ◌||◌, Option, none, some, List, [], ◌∷◌, inl, inr,
  Option-cases,
}
use aucnotif.Prelude.Int.{ℤ}
use aucnotif.Prelude.Text.{Text, codes, strip, text_eq}
use aucnotif.Times.{Instant}
use aucnotif.Config.{Settings}
use aucnotif.Database.{Database}
use aucnotif.Domain.Validation.Canonical.{IsId}
use aucnotif.Providers.{Fetched}
use aucnotif.Services.Auctions.{
  AddOutcome, added, invalid_url, provider_failed, raised, add_watch, set_label,
}
use aucnotif.Prelude.{if_keeps}
use aucnotif.Services.Auctions.Known.{IsKnown, add_watch-IsKnown}
use aucnotif.Bot.Keyboards.{InlineKeyboardMarkup}
use aucnotif.Bot.Replies.{Fsm, Reply, Handled, cleared, shows}
use aucnotif.Bot.Messages.{
  on_result, watch_url, handle_url, name_auction, on_label, cmd_start, cmd_help, cmd_list,
  cmd_watch, handle_url_message, cmd_skip_name, handle_name_message, after_space, text_or_empty,
  label_of,
}
use aucnotif.Schemas.Yahoo.{parse_int}
use aucnotif.Services.Auctions.{
  RemoveResult, not_found, removed, get_watch_item, toggle_notifications, remove_watch,
}
use aucnotif.Bot.Callbacks.{
  cb_menu, cb_list, cb_list_page, cb_noop, cb_add, cb_help, cb_auction, cb_delete, cb_mute,
  split_data, submenu, list_page, open_auction, on_removed, delete_auction, on_toggled,
  item_or_list, mute_auction, with_page, with_parts, with_item,
}
use aucnotif.Bot.Dispatch.{
  starts_with, handle_message, handle_callback, is_command, command_in, spoken, is_link, has_text,
}

-- No name is awaited, or the data holds an auction's id.
abbrev pub IsSound : Fsm → Type 0
IsSound state =
    (state.waiting_for_name ≡ false) ⊎ ((id : Text) × ((state.external_id ≡ some id) × IsId id))

on_result-IsSound :
    (now : Instant) (r : AddOutcome × Database) → IsKnown r.0 → IsSound (on_result now r).state
unfolding on_result
on_result-IsSound now (invalid_url, db) k = inl refl
on_result-IsSound now (provider_failed e, db) k = inl refl
on_result-IsSound now (raised, db) k = inl refl
on_result-IsSound now (added auction true user, db) k = inl refl
on_result-IsSound now (added auction false user, db) k =
    if_keeps (λ (h : Handled). IsSound h.state) auction.is_closed _ _ (inl refl)
      (inr (auction.external_id, (refl, k)))

abbrev Sound : Handled → Type 0
Sound h = IsSound h.state

cleared-IsSound : IsSound cleared
cleared-IsSound = inl refl

watch_url-Sound :
    (settings : Settings) (provider : Text → Fetched) (now : Instant) (telegram_id : ℕ) (url : Text)
    (state : Fsm) (db : Database)
    → IsSound state
    → IsSound (watch_url settings provider now telegram_id url state db).state
unfolding handle_url
watch_url-Sound settings provider now telegram_id [] state db h = h
watch_url-Sound settings provider now telegram_id (c ∷ url) state db h =
    on_result-IsSound now (add_watch settings provider now telegram_id (c ∷ url) db)
      (add_watch-IsKnown settings provider now telegram_id (c ∷ url) db)

name_auction-Sound :
    (telegram_id : ℕ) (label id : Option Text) (db : Database)
    → IsSound (name_auction telegram_id label id db).state
name_auction-Sound telegram_id label none db = cleared-IsSound
name_auction-Sound telegram_id label (some []) db = cleared-IsSound
name_auction-Sound telegram_id label (some (c ∷ id)) db =
    labelled_state label (set_label telegram_id (c ∷ id) label db)
  where
    labelled_state : (l : Option Text) (r : Option Bool × Database) → IsSound (on_label l r).state
    labelled_state l (none, d) = cleared-IsSound
    labelled_state l (some b, d) = cleared-IsSound

message-IsSound :
    (accepts : Text → InlineKeyboardMarkup → Bool) (command_of : Text → Option Text)
    (settings : Settings) (provider : Text → Fetched) (now : Instant) (telegram_id : ℕ)
    (text caption : Option Text) (state : Fsm) (db : Database)
    → IsSound state
    → IsSound
        (handle_message accepts command_of settings provider now telegram_id text caption state
          db).state
unfolding handle_message cmd_start cmd_help cmd_list cmd_watch handle_url_message handle_url
    cmd_skip_name handle_name_message
message-IsSound accepts command_of settings provider now telegram_id text caption state db h =
    let is = is_command (command_in command_of (spoken text caption)) in
    if_keeps Sound (is (codes "start")) _ _ h (
      if_keeps Sound (is (codes "help")) _ _ h (
        if_keeps Sound (is (codes "list")) _ _ h (
          if_keeps Sound (is (codes "watch")) _ _
            (watch_url-Sound settings provider now telegram_id
              (strip (after_space (text_or_empty text))) state db h)
            (if_keeps Sound (is_link text) _ _
              (on_result-IsSound now
                (add_watch settings provider now telegram_id (text_or_empty text) db)
                (add_watch-IsKnown settings provider now telegram_id (text_or_empty text) db))
              (if_keeps Sound (state.waiting_for_name && (is (codes "skip") || is (codes "cancel")))
                _ _ cleared-IsSound
                (if_keeps Sound (state.waiting_for_name && has_text text) _ _
                  (name_auction-Sound telegram_id (label_of text) state.external_id db) h))))))

-- What `shows` makes keeps the state.
shows_keeps :
    (before : List Reply) (r : Option Reply) (after : List Reply) (state : Fsm) (db : Database)
    → IsSound state
    → Sound (shows before r after state db)
shows_keeps before none after state db h = h
shows_keeps before (some r) after state db h = h

with_parts-Sound :
    (digit_of : ℕ → Option ℕ) (parts : List Text) (handle : Text → ℤ → Fsm → Database → Handled)
    (state : Fsm) (db : Database)
    → IsSound state
    → ((id : Text) (page : ℤ) → Sound (handle id page state db))
    → Sound (with_parts digit_of parts handle state db)
with_parts-Sound digit_of [] handle state db h keeps = h
with_parts-Sound digit_of (x ∷ []) handle state db h keeps = h
with_parts-Sound digit_of (x ∷ y ∷ []) handle state db h keeps = h
with_parts-Sound digit_of (x ∷ y ∷ z ∷ []) handle state db h keeps = paged (parse_int digit_of z)
  where
    paged : (page : Option ℤ) → Sound (with_page page handle y state db)
    paged none = h
    paged (some page) = keeps y page
with_parts-Sound digit_of (x ∷ y ∷ z ∷ w ∷ rest) handle state db h keeps = h

module _ (accepts : Text → InlineKeyboardMarkup → Bool) (now : Instant) (telegram_id : ℕ)
    (id : Text) (page : ℤ) (state : Fsm) (h : IsSound state) where
  open_auction-Sound :
      (db : Database) → Sound (open_auction accepts now telegram_id id page state db)
  unfolding open_auction
  open_auction-Sound db = elim (Option-cases (get_watch_item telegram_id id db)) [
    | inl e ↦ rw (e, open_auction) h
    | inr (item, e) ↦
        rw (e, open_auction) (shows_keeps [] (submenu accepts item page now) _ state db h)
  ]

  on_removed-Sound :
      (r : RemoveResult × Database) → Sound (on_removed accepts telegram_id page state r)
  on_removed-Sound (removed, db) = h
  on_removed-Sound (not_found, db) = h

  on_toggled-Sound :
      (r : Option Bool × Database) → Sound (on_toggled accepts now telegram_id id page state r)
  on_toggled-Sound (none, db) = h
  on_toggled-Sound (some on, db) =
      shows_keeps _
        (item_or_list accepts now telegram_id page db (get_watch_item telegram_id id db)) [] state
        db h

callback-IsSound :
    (accepts : Text → InlineKeyboardMarkup → Bool) (digit_of : ℕ → Option ℕ) (settings : Settings)
    (now : Instant) (telegram_id : ℕ) (pressed : Text) (state : Fsm) (db : Database)
    → IsSound state
    → IsSound (handle_callback accepts digit_of settings now telegram_id pressed state db).state
unfolding handle_callback cb_menu cb_list cb_list_page cb_noop cb_add cb_help cb_auction cb_delete
    cb_mute with_item list_page delete_auction mute_auction
callback-IsSound accepts digit_of settings now telegram_id pressed state db h =
    let parts = with_parts-Sound digit_of (split_data pressed) in
    if_keeps Sound (text_eq pressed (codes "menu:home")) _ _ cleared-IsSound (
      if_keeps Sound (text_eq pressed (codes "menu:list")) _ _ h (
        if_keeps Sound (starts_with (codes "list:page:") pressed) _ _
          (parts (λ _ page. list_page accepts telegram_id page) state db h (λ _ _. h))
          (if_keeps Sound (text_eq pressed (codes "noop")) _ _ h (
            if_keeps Sound (text_eq pressed (codes "menu:add")) _ _ h (
              if_keeps Sound (text_eq pressed (codes "menu:help")) _ _ h (
                if_keeps Sound (starts_with (codes "auction:") pressed) _ _
                  (parts (λ id page. open_auction accepts now telegram_id id page) state db h
                    (λ id page. open_auction-Sound accepts now telegram_id id page state h db))
                  (if_keeps Sound (starts_with (codes "del:") pressed) _ _
                    (parts (λ id page. delete_auction accepts settings now telegram_id id page)
                      state db h
                      (λ id page.
                        on_removed-Sound accepts now telegram_id id page state h
                          (remove_watch settings now telegram_id id db)))
                    (if_keeps Sound (starts_with (codes "mute:") pressed) _ _
                      (parts (λ id page. mute_auction accepts now telegram_id id page) state db h
                        (λ id page.
                          on_toggled-Sound accepts now telegram_id id page state h
                            (toggle_notifications telegram_id id db)))
                      h))))))))

-- What the user does, when, and what it finds in the database and at the provider.
pub data Update : Type 0 where
  writes : Option Text → Option Text → Instant → (Text → Fetched) → Database → Update
  presses : Text → Instant → Database → Update

module _ (accepts : Text → InlineKeyboardMarkup → Bool) (command_of : Text → Option Text)
    (digit_of : ℕ → Option ℕ) (settings : Settings) (telegram_id : ℕ) where
  unfoldable pub handle_update : Update → Fsm → Handled
  handle_update (writes text caption now provider db) state =
      handle_message accepts command_of settings provider now telegram_id text caption state db
  handle_update (presses pressed now db) state =
      handle_callback accepts digit_of settings now telegram_id pressed state db

  unfoldable pub converse : List Update → Fsm → Fsm
  converse [] state = state
  converse (u ∷ updates) state = converse updates (handle_update u state).state

  update-IsSound :
      (u : Update) (state : Fsm) → IsSound state → IsSound (handle_update u state).state
  unfolding handle_update
  update-IsSound (writes text caption now provider db) state h =
      message-IsSound accepts command_of settings provider now telegram_id text caption state db h
  update-IsSound (presses pressed now db) state h =
      callback-IsSound accepts digit_of settings now telegram_id pressed state db h

  -- Whatever a user writes and presses, and whatever becomes of the database meanwhile: if the conversation started
  -- so that a name was awaited only for a well-formed auction id, then a name is awaited only for such an id.
  pub converse-IsSound :
      (updates : List Update) (state : Fsm) → IsSound state → IsSound (converse updates state)
  unfolding converse
  converse-IsSound [] state h = h
  converse-IsSound (u ∷ updates) state h =
      converse-IsSound updates (handle_update u state).state (update-IsSound u state h)
