-- ===== src/Examples/Sockets.antt =====
-- Runs of channels, presences and schedules of connections.
use ar_app.Base.{Bool, ◌≡◌, refl, true, false, List, [], ◌∷◌, nat_eq, string_eq, arith}
use ar_app.Signaling.Role.{agent, phone, role_eq}
use ar_app.Signaling.Channel.{done, WsPeer, new_peer, Wake, received, ticked}
use ar_app.Signaling.Channel.Delivery.{
  IsGuarded, Call, sends, closes, calls, calls_no_panic, Drains, shut_down, write_pump-Drains,
  new_peer-IsGuarded,
}

abbrev script : List Call
script = sends "offer" ∷ closes ∷ sends "late" ∷ closes ∷ []

calls_no_panic_example : (q : WsPeer) × (calls script (new_peer agent) ≡ done q) × IsGuarded q
calls_no_panic_example = calls_no_panic script (new_peer agent) (new_peer-IsGuarded agent)

abbrev busy : WsPeer
busy = record {
  role = phone;
  channel = record { buffer = "offer" ∷ "candidate" ∷ []; shut = false };
  closed = false;
}

busy-IsGuarded : IsGuarded busy
busy-IsGuarded = record { flagged = refl; bounded = omega arith }

-- The timer fires before and after the first frame.
abbrev wakes : List (Wake × Bool)
wakes =
    (ticked, true) ∷ (received, true) ∷ (ticked, true) ∷ (received, true) ∷ (received, true) ∷ []

write_pump-Drains_example : Drains wakes (shut_down busy)
write_pump-Drains_example =
    write_pump-Drains wakes busy busy-IsGuarded (refl, (refl, (refl, (refl, (refl, tt)))))
      (omega arith)
