-- ===== src/Tests/Sessions.antt =====
-- Two peers that each open channels: the runs on which the statements on the table and the stream ids hold.
use librtcdc.Base.{◌++◌, ℕ, ◌+◌, ◌≡◌, refl, some, [], ◌∷◌, arith, set}
use librtcdc.Peer.{Peer, Event, first_free}
use librtcdc.Dcep.Wire.{write_open, control_ppid}
use librtcdc.Dcep.Invariant.{IsTable}
use librtcdc.Channel.{new_channel, open_request, create_data_channel}
use librtcdc.Channel.Reach.{creates, begins, steps, transports, Life-IsTable}
use librtcdc.Channel.Sending.{create_sends}
use librtcdc.Callbacks.Keeping.{serving-IsPolite}
use librtcdc.Callbacks.{serving}
use librtcdc.Tests.Fixtures.{
  quiet, connected_sctp, offerer, answerer, upload_label, upload_request, offerer-IsTable,
}

-- A peer after it has opened an upload channel in a slot, with a cursor.
abbrev pub opened : Peer → ℕ → ℕ → Peer
opened p i cursor = record p {
  transport = some (connected_sctp (cursor + 2));
  channels = set p.channels i (some (new_channel upload_request cursor));
  events =
      p.events
      ++ Event.sendv cursor control_ppid (some (write_open (open_request upload_label []))) ∷ [];
}

-- The offerer after its first upload.
abbrev pub later : Peer
later = opened offerer 0 0

pub first_upload :
    create_data_channel (serving quiet) offerer upload_request
    ≡ some (later, some (new_channel upload_request 0))
unfolding first_free
first_upload =
    create_sends (serving quiet) offerer (connected_sctp 0) upload_request upload_label [] refl refl
      refl (omega arith) refl refl refl refl refl

pub answerer_upload :
    create_data_channel (serving quiet) answerer upload_request
    ≡ some (opened answerer 0 1, some (new_channel upload_request 1))
unfolding first_free
answerer_upload =
    create_sends (serving quiet) answerer (connected_sctp 1) upload_request upload_label [] refl
      refl refl (omega arith) refl refl refl refl refl

-- Its transport is then set as startup_thread sets it.
abbrev restarted : Peer
restarted = record later { transport = some (connected_sctp 0) }

Life-IsTable_example : IsTable restarted
Life-IsTable_example =
    Life-IsTable (serving quiet) offerer restarted (serving-IsPolite quiet)
      (transports (some (connected_sctp 0))
        (steps begins (creates upload_request (some (new_channel upload_request 0)) first_upload)))
      offerer-IsTable
