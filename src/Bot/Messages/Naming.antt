-- ===== src/Bot/Messages/Naming.antt =====
-- The conversation that names an auction which was just added.
use aucnotif.Prelude.{◌++◌, ◌<◌, ◌⊎◌, ℕ, zero, suc, ◌≡◌, Option, none, some, [], ◌∷◌}
use aucnotif.Prelude.Lists.{length}
use aucnotif.Prelude.Text.{Text}
use aucnotif.Prelude.Text.Parts.{IsSpace, StartsBare, EndsBare, Parts}
use aucnotif.Prelude.Lists.{All}
use aucnotif.Models.{Auction, UserAuction}
use aucnotif.Database.{Database}
use aucnotif.Repositories.Users
use aucnotif.Repositories.Auctions
use aucnotif.Repositories.UserAuctions

abbrev pub label_size : Option Text → ℕ
label_size none = 0
label_size (some label) = length label

-- What `get_watch_item` finds, with another label.
abbrev pub labelled : Option Text → UserAuction × Auction → UserAuction × Auction
labelled label (link, auction) = (record link { label = label }, auction)

-- What a message names: nothing, if it is white space alone, or at most 255 characters of what stands between its
-- white space, from the first one on.
abbrev pub Names : Text → Option Text → Type 0
Names s none = All IsSpace s
Names s (some label) =
    (before : Text) × (core : Text) × (rest : Text) × (after : Text) × ((s
        ≡ before ++ (core ++ after))
      × ((All IsSpace before × All IsSpace after)
          × ((StartsBare core × EndsBare core)
              × ((core ≡ label ++ rest)
                  × (((length label ≡ 255) × (0 < length rest)) ⊎ (rest ≡ []))))))

drop : ℕ → Text → Text
drop zero s = s
drop (suc n) [] = []
drop (suc n) (c ∷ s) = drop n s
