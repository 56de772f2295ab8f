-- ===== src/Service/Accounting/Steps.antt =====
-- What one seat more or less does to the accounting of the two tables.
use licensing_master.Base.{
  ℕ, suc, String, ◌+◌, ◌≤◌, ◌≡◌, ◌≢◌, refl, ◌==◌, nat_eq, string_eq, Bool, true, false, Option,
  none, some, List, [], ◌∷◌, ◌++◌, arith,
}
use licensing_master.Base.Rows.{
  first, count, update, All, ind, All-update, All-map, All-zip, All-append, first_of_count,
  count-append, count-update_same,
}
use licensing_master.Base.Keys.{
  Unique, All-sat, Unique-update, Unique-append, count-update, Absent-of_first,
}
use licensing_master.Tables.{BatchToken, Device}
use licensing_master.Service.Seats.{has_room, has_seat, take_seat, give_seat}
use licensing_master.Service.Accounting.{Accounted, TokenAccounted, IsKnown, booked, is_booked}

-- One more booking against the token `k`, whose row had room.
pub Accounted-take :
    (k : ℕ) (ts : List BatchToken) (ds ds' : List Device) (s s' : ℕ)
    → Accounted ts ds s
    → count (has_room k) ts ≢ 0
    → s ≤ s'
    → ((j : ℕ) → booked j ds' ≡ booked j ds + ind (k == j))
    → Unique (λ (d : Device). d.hardware_uuid) ds'
    → All (λ (d : Device). IsKnown s' d.activated_via) ds'
    → Accounted (update (has_room k) take_seat ts) ds' s'
Accounted-take k ts ds ds' s s' h room le one unique known = record {
  tokens_unique =
      Unique-update (λ (t : BatchToken). t.batch_token_id) _ _ ts (λ x. refl) h.tokens_unique;
  devices_unique = unique;
  tokens_accounted =
      All-update
        (λ t. TokenAccounted ds s t × ((t.batch_token_id == k) ≡ true → has_room k t ≡ true))
        (TokenAccounted ds' s') (has_room k) take_seat ts
        (λ t p on. ground (arith, one t.batch_token_id))
        (λ t p off. ground (arith, one t.batch_token_id, p.1))
        (All-zip (TokenAccounted ds s) (λ t. (t.batch_token_id == k) ≡ true → has_room k t ≡ true)
          ts h.tokens_accounted only);
  devices_known = known;
  serial_positive = let p = h.serial_positive in omega arith;
}
  where
    only : All (λ t. (t.batch_token_id == k) ≡ true → has_room k t ≡ true) ts
    only =
        let (t, found) = first_of_count (has_room k) ts room in
        All-sat (λ (t : BatchToken). t.batch_token_id) (has_room k) k ts (λ x on. ground arith)
          h.tokens_unique found

-- One booking less against the token `k`.
pub Accounted-give :
    (k : ℕ) (ts : List BatchToken) (ds ds' : List Device) (s : ℕ)
    → Accounted ts ds s
    → ((j : ℕ) → booked j ds' + ind (k == j) ≡ booked j ds)
    → Unique (λ (d : Device). d.hardware_uuid) ds'
    → All (λ (d : Device). IsKnown s d.activated_via) ds'
    → Accounted (update (has_seat k) give_seat ts) ds' s
Accounted-give k ts ds ds' s h one unique known = record {
  tokens_unique =
      Unique-update (λ (t : BatchToken). t.batch_token_id) _ _ ts (λ x. refl) h.tokens_unique;
  devices_unique = unique;
  tokens_accounted =
      All-update (TokenAccounted ds s) (TokenAccounted ds' s) (has_seat k) give_seat ts
        (λ t p on. ground (arith, one t.batch_token_id))
        (λ t p off. ground (arith, one t.batch_token_id)) h.tokens_accounted;
  devices_known = known;
  serial_positive = let p = h.serial_positive in omega arith;
}

-- A change of the devices that leaves every count of bookings.
pub Accounted-same :
    (ts : List BatchToken) (ds ds' : List Device) (s s' : ℕ)
    → Accounted ts ds s
    → s ≤ s'
    → ((j : ℕ) → booked j ds' ≡ booked j ds)
    → Unique (λ (d : Device). d.hardware_uuid) ds'
    → All (λ (d : Device). IsKnown s' d.activated_via) ds'
    → Accounted ts ds' s'
Accounted-same ts ds ds' s s' h le same unique known = record {
  tokens_unique = h.tokens_unique;
  devices_unique = unique;
  tokens_accounted =
      All-map (TokenAccounted ds s) (TokenAccounted ds' s') ts
        (λ t p. ground (arith, same t.batch_token_id)) h.tokens_accounted;
  devices_known = known;
  serial_positive = let p = h.serial_positive in omega arith;
}

pub IsKnown-le : (s s' : ℕ) (o : Option ℕ) → s ≤ s' → IsKnown s o → IsKnown s' o
IsKnown-le s s' none le h = tt
IsKnown-le s s' (some j) le h = omega arith

abbrev pub revoke : Device → Device
revoke d = record d { is_revoked = true }

abbrev pub at_uuid : String → Device → Bool
at_uuid hw d = d.hardware_uuid == hw

module _ (ts : List BatchToken) (ds : List Device) (s : ℕ) (h : Accounted ts ds s) where
  -- A booking in a row that is new.
  pub Accounted-book_new :
      (k : ℕ) (row : Device)
      → count (has_room k) ts ≢ 0
      → IsKnown s (some k)
      → first (at_uuid row.hardware_uuid) ds ≡ none
      → row.is_revoked ≡ false
      → row.activated_via ≡ some k
      → Accounted (update (has_room k) take_seat ts) (ds ++ row ∷ []) (suc s)
  unfolding booked
  Accounted-book_new k row room known absent live via =
      Accounted-take k ts ds (ds ++ row ∷ []) s (suc s) h room (omega arith)
        (λ j. rw (count-append (is_booked j) ds (row ∷ [])) (ground arith))
        (Unique-append (λ (d : Device). d.hardware_uuid) ds row h.devices_unique
          (Absent-of_first (λ (d : Device). d.hardware_uuid) row.hardware_uuid ds absent))
        (All-append (λ (d : Device). IsKnown (suc s) d.activated_via) ds (row ∷ [])
          (All-map (λ (d : Device). IsKnown s d.activated_via)
            (λ (d : Device). IsKnown (suc s) d.activated_via) ds
            (λ d p. IsKnown-le s (suc s) d.activated_via (omega arith) p) h.devices_known)
          (rw via (omega arith), tt))

  -- A booking in the row of a revoked device.
  pub Accounted-book_old :
      (k : ℕ) (hw : String) (f : Device → Device) (d : Device)
      → count (has_room k) ts ≢ 0
      → IsKnown s (some k)
      → first (at_uuid hw) ds ≡ some d
      → d.is_revoked ≡ true
      → ((x : Device) → (f x).hardware_uuid ≡ x.hardware_uuid)
      → ((x : Device) → (f x).is_revoked ≡ false)
      → ((x : Device) → (f x).activated_via ≡ some k)
      → Accounted (update (has_room k) take_seat ts) (update (at_uuid hw) f ds) s
  unfolding booked
  Accounted-book_old k hw f d room known found dead same live via =
      Accounted-take k ts ds (update (at_uuid hw) f ds) s s h room (omega arith)
        (λ j. ground (
          arith,
          live d,
          via d,
          count-update (λ (x : Device). x.hardware_uuid) (is_booked j) (at_uuid hw) f hw ds {r = d}
              (λ x on. on) h.devices_unique found,
        ))
        (Unique-update (λ (d : Device). d.hardware_uuid) (at_uuid hw) f ds same h.devices_unique)
        (All-update (λ (d : Device). IsKnown s d.activated_via)
          (λ (d : Device). IsKnown s d.activated_via) (at_uuid hw) f ds (λ x _ _. rw (via x) known)
          (λ x p _. p) h.devices_known)

  -- A change of devices that leaves their bookings.
  pub Accounted-edit :
      (p : Device → Bool) (f : Device → Device)
      → ((x : Device) → (f x).hardware_uuid ≡ x.hardware_uuid)
      → ((x : Device) → (f x).is_revoked ≡ x.is_revoked)
      → ((x : Device) → (f x).activated_via ≡ x.activated_via)
      → Accounted ts (update p f ds) s
  unfolding booked
  Accounted-edit p f same live via =
      Accounted-same ts ds (update p f ds) s s h (omega arith)
        (λ j. count-update_same (is_booked j) p f ds (λ x _. rw (live x, via x)))
        (Unique-update (λ (d : Device). d.hardware_uuid) p f ds same h.devices_unique)
        (All-update (λ (d : Device). IsKnown s d.activated_via)
          (λ (d : Device). IsKnown s d.activated_via) p f ds (λ x q _. rw (via x) q) (λ x q _. q)
          h.devices_known)

  -- A larger serial keeps the accounting.
  pub Accounted-later : (s' : ℕ) → s ≤ s' → Accounted ts ds s'
  Accounted-later s' le = record {
    tokens_unique = h.tokens_unique;
    devices_unique = h.devices_unique;
    tokens_accounted =
        All-map (TokenAccounted ds s) (TokenAccounted ds s') ts (λ t p. ground arith)
          h.tokens_accounted;
    devices_known =
        All-map (λ (d : Device). IsKnown s d.activated_via)
          (λ (d : Device). IsKnown s' d.activated_via) ds
          (λ d p. IsKnown-le s s' d.activated_via le p) h.devices_known;
    serial_positive = let p = h.serial_positive in omega arith;
  }
