-- ===== src/Callbacks/Sessions.antt =====
-- Uploads and downloads between two connected peers, with the callbacks of both sides.
use librtcdc.Peer.{Peer}
