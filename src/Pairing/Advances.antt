-- ===== src/Pairing/Advances.antt =====
-- Tables of pairings that a call moves forward.
use mathlib.Core.List.{Memᴰ}
use cursor_gateway.Base.{ℕ, List, ◌≡◌, refl, All, ==_iff, ◌==◌, arith}
use cursor_gateway.Table.{update_key}
use cursor_gateway.Table.Laws.{All-update_where, All-at}
use cursor_gateway.Table.Keys.{Unique, Unique-at, Unique-update_where}
use cursor_gateway.Table.Kept.{Kept, Kept-refl, Kept-trans, Kept-update_where, Kept-update_key}
use cursor_gateway.Pairing.{Pairing, Directory}
use cursor_gateway.Pairing.Stages.{
  pairing_key, is_stale_pairing, mark_expired, expire_stale_pairings,
}
use cursor_gateway.Pairing.Moves.{Follows, Follows-refl, Follows-trans, IsConsistent}
use cursor_gateway.Pairing.Moves
use cursor_gateway.Pairing.Consistent

-- A table of pairings with distinct ids and consistent rows.
pub record IsSound (t : List Pairing) : Type 0 where
  pub distinct : Unique pairing_key t
  pub consistent : All IsConsistent t

-- What a call makes of a sound table: a sound one, with every pairing kept.
pub record Advances (t u : List Pairing) : Type 0 where
  pub sound : IsSound u
  pub kept : Kept Follows t u

pub Advances-refl : (t : List Pairing) → IsSound t → Advances t t
Advances-refl t s = record { sound = s; kept = Kept-refl Follows Follows-refl t }

pub Advances-trans : (t u v : List Pairing) → Advances t u → Advances u v → Advances t v
Advances-trans t u v a b = record {
  sound = b.sound;
  kept = Kept-trans Follows Follows-trans t u v a.kept b.kept;
}

pub expire-Advances :
    (now : ℕ) (s : Directory)
    → IsSound s.pairings
    → Advances s.pairings (expire_stale_pairings now s).pairings
unfolding expire_stale_pairings
expire-Advances now s h = record {
  sound = record {
    distinct =
        Unique-update_where pairing_key (is_stale_pairing now) (mark_expired now) (λ r. refl)
          s.pairings h.distinct;
    consistent =
        All-update_where IsConsistent (is_stale_pairing now) (mark_expired now) s.pairings
          (λ r m c e. Consistent.expired-IsConsistent now r c) h.consistent;
  };
  kept =
      Kept-update_where Follows Follows-refl (is_stale_pairing now) (mark_expired now) s.pairings
        (λ r m e. Moves.expired-Follows now r (ground (arith, e)));
}

-- A row that is changed by its key.
pub key-Advances :
    (t : List Pairing) (c : Pairing) (change : Pairing → Pairing)
    → IsSound t
    → Memᴰ c t
    → ((r : Pairing) → pairing_key (change r) ≡ pairing_key r)
    → Follows c (change c)
    → (IsConsistent c → IsConsistent (change c))
    → Advances t (update_key pairing_key c.pair_id change t)
unfolding update_key
key-Advances t c change h mem same_key step fine = record {
  sound = record {
    distinct =
        Unique-update_where pairing_key (λ r. pairing_key r == c.pair_id) change same_key t
          h.distinct;
    consistent =
        All-update_where IsConsistent (λ r. pairing_key r == c.pair_id) change t
          (λ r m ok e.
            let one : r ≡ c = Unique-at pairing_key t h.distinct r c m mem ((==_iff _ _).0 e) in
            rw one (fine (All-at IsConsistent t h.consistent c mem)))
          h.consistent;
  };
  kept = Kept-update_key Follows Follows-refl pairing_key t h.distinct c change mem step;
}
