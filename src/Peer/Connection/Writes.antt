-- ===== src/Peer/Connection/Writes.antt =====
-- Connections that write.
use iron_peer_417project_pri.Base.{ℕ, ◌≡◌, refl, List, [], ◌∷◌, ◌++◌, true}
use iron_peer_417project_pri.Protocol.Messages.{Message}
use iron_peer_417project_pri.Protocol.Codec.{encode}
use iron_peer_417project_pri.Peer.Connection.{
  PeerConnection, Write, write_by, write_all, send_message,
}

write_by_open :
    (ws : List Write) (bytes : List ℕ) (c : PeerConnection)
    → ws ≡ []
    → write_by ws bytes c ≡ (true, record c { written = c.written ++ bytes })
unfolding write_by
write_by_open [] bytes c e = refl
write_by_open (w ∷ ws) bytes c e = cc

-- A stream whose writes do not fail sends everything.
pub write_all_open :
    (bytes : List ℕ) (c : PeerConnection)
    → c.writes ≡ []
    → write_all bytes c ≡ (true, record c { written = c.written ++ bytes })
unfolding write_all
write_all_open bytes c e = write_by_open c.writes bytes c e

pub send_message_open :
    (msg : Message) (c : PeerConnection)
    → c.writes ≡ []
    → send_message msg c ≡ (true, record c { written = c.written ++ encode msg })
unfolding send_message
send_message_open msg c e = write_all_open (encode msg) c e
