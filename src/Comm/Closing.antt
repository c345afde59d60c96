-- ===== src/Comm/Closing.antt =====
-- What remove_interactive leaves of the pointers between the connections.
use lpmud_ng.Base.{
  ℕ, ◌≡◌, ◌≢◌, refl, sym, ap, ◌∙◌, true, false, ◌==◌, if◌then◌else◌, Option, none, some, arith,
}
use lpmud_ng.Base.Int.{pos, ◌-ℤ◌}
use lpmud_ng.Base.Run.{ok, fatal}
use lpmud_ng.Comm.Snoop.{
  Players, end_on, end_by, end_input, hang_up, remove_found, is_slot, remove_interactive,
}
use lpmud_ng.Comm.Pairs.{
  IsBacked, IsMarked, end_on-IsBacked, end_by-IsBacked, end_on-IsMarked, end_by-IsMarked,
}

-- Nothing points at a connection that is closed.
pub record IsClosed (o ip : ℕ) (w : Players) : Type 0 where
  pub object : w.interactive o ≡ none
  pub unsnooped : (x : ℕ) → w.snoop_on x ≢ some ip
  pub unsnooping : (x : ℕ) → w.snoop_by x ≢ some ip
  pub backed : IsBacked w
  pub marked : IsMarked w

end_by-none :
    (ip : ℕ) (p : Option ℕ) (w : Players) → w.snoop_by ip ≡ p → (end_by ip p w).snoop_by ip ≡ none
end_by-none ip none w e = e
end_by-none ip (some p) w e = ground arith

end_on-none :
    (ip : ℕ) (p : Option ℕ) (w : Players) → w.snoop_on ip ≡ p → (end_on ip p w).snoop_on ip ≡ none
end_on-none ip none w e = e
end_on-none ip (some p) w e = ground arith

end_on_keeps :
    (ip q : ℕ) (p : Option ℕ) (w : Players)
    → w.snoop_by q ≡ none
    → (end_on ip p w).snoop_by q ≡ none
end_on_keeps ip q none w e = e
end_on_keeps ip q (some p) w e = ground (arith, e)

-- The pointers of two tables are the same.
record Alike (v w : Players) : Type 0 where
  on : v.snoop_on ≡ w.snoop_on
  by : v.snoop_by ≡ w.snoop_by

end_input-Alike : (ip : ℕ) (p : Option ℕ) (w : Players) → Alike (end_input ip p w) w
end_input-Alike ip none w = record { on = refl; by = refl }
end_input-Alike ip (some o) w = record { on = refl; by = refl }

Alike-IsBacked : (v w : Players) → Alike v w → IsBacked w → IsBacked v
Alike-IsBacked v w a h = record {
  backed = λ x y e. ap (λ f. f x) a.on ∙ h.backed x y (sym (ap (λ f. f y) a.by) ∙ e);
}

Alike-IsMarked : (v w : Players) → Alike v w → IsMarked w → IsMarked v
Alike-IsMarked v w a h = record {
  marked = λ x y e. ap (λ f. f y) a.by ∙ h.marked x y (sym (ap (λ f. f x) a.on) ∙ e);
}

hang_up-IsClosed :
    (o ip : ℕ) (w : Players) → IsBacked w → IsMarked w → IsClosed o ip (hang_up o ip w)
unfolding hang_up
hang_up-IsClosed o ip w b m = record {
  object = ground arith;
  unsnooped = λ x e. no_some (sym no_by ∙ marked4.marked x ip e);
  unsnooping = λ x e. no_some (sym no_on ∙ backed4.backed ip x e);
  backed = record { backed = backed4.backed };
  marked = record { marked = marked4.marked };
}
  where
    no_some : {x : ℕ} → none ≡ some x → ⊥
    no_some e = cc

    w1 : Players
    w1 = record w { closing = λ q. if q == ip then true else w.closing q }

    b1 : IsBacked w1
    b1 = record { backed = b.backed }

    m1 : IsMarked w1
    m1 = record { marked = m.marked }

    w2 : Players
    w2 = end_by ip (w1.snoop_by ip) w1

    w3 : Players
    w3 = end_on ip (w2.snoop_on ip) w2

    w4 : Players
    w4 = end_input ip (w3.input_to ip) (record w3 { num_player = w3.num_player -ℤ pos 1 })

    alike : Alike w4 w3
    alike =
        let a =
          end_input-Alike ip (w3.input_to ip) (record w3 { num_player = w3.num_player -ℤ pos 1 }) in
        record { on = a.on; by = a.by }

    backed3 : IsBacked w3
    backed3 =
        end_on-IsBacked ip (w2.snoop_on ip) w2 refl (end_by-IsBacked ip (w1.snoop_by ip) w1 refl b1)

    marked3 : IsMarked w3
    marked3 =
        end_on-IsMarked ip (w2.snoop_on ip) w2 refl
          (end_by-IsMarked ip (w1.snoop_by ip) w1 refl b1 m1)

    backed4 : IsBacked w4
    backed4 = Alike-IsBacked w4 w3 alike backed3

    marked4 : IsMarked w4
    marked4 = Alike-IsMarked w4 w3 alike marked3

    no_by : w4.snoop_by ip ≡ none
    no_by =
        ap (λ f. f ip) alike.by
        ∙ end_on_keeps ip ip (w2.snoop_on ip) w2 (end_by-none ip (w1.snoop_by ip) w1 refl)

    no_on : w4.snoop_on ip ≡ none
    no_on = ap (λ f. f ip) alike.on ∙ end_on-none ip (w2.snoop_on ip) w2 refl

-- If the marks of snooping are right in both directions, a connection that stands in the table and
-- is not closing is closed by remove_interactive: its object has none, no connection snoops on it
-- or is marked as snooped on by it, and the marks are right in both directions.
pub remove_interactive-IsClosed :
    (o ip : ℕ) (w : Players)
    → IsBacked w
    → IsMarked w
    → w.interactive o ≡ some ip
    → is_slot (some ip) w.all_players ≡ true
    → w.closing ip ≡ false
    → (w' : Players) × (remove_interactive o w ≡ ok w') × IsClosed o ip w'
unfolding remove_interactive remove_found
remove_interactive-IsClosed o ip w b m e s c = (
  hang_up o ip w,
  ap (λ p. if is_slot p w.all_players then remove_found o p w else fatal) e
      ∙ ap (λ t. if t then remove_found o (some ip) w else fatal) s
      ∙ ap (λ t. if t then fatal else ok (hang_up o ip w)) c,
  hang_up-IsClosed o ip w b m,
)
