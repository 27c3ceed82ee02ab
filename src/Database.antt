-- ===== src/Database.antt =====
-- The database of app/db.py: the tables, and the sequences that number their rows. A table lists its rows
-- newest first; no query of the program depends on that order. A function on a `Database` is what a
-- session does in one transaction, whose commit is the database that comes back.
use aucnotif.Prelude.{ℕ, List, []}
use aucnotif.Models.{User, Auction, AuctionSnapshot, UserAuction, SentNotification}

pub record Database : Type 0 where
  pub users : List User
  pub auctions : List Auction
  pub user_auctions : List UserAuction
  pub snapshots : List AuctionSnapshot
  pub notifications : List SentNotification
  pub next_user : ℕ
  pub next_auction : ℕ
  pub next_user_auction : ℕ
  pub next_snapshot : ℕ
  pub next_notification : ℕ

abbrev pub empty : Database
empty = record {
  users = [];
  auctions = [];
  user_auctions = [];
  snapshots = [];
  notifications = [];
  next_user = 1;
  next_auction = 1;
  next_user_auction = 1;
  next_snapshot = 1;
  next_notification = 1;
}
