-- ===== src/Session/Nonces.antt =====
-- The nonces that the sessions of ddht/v5_1/session.py encrypt with.
use ddht.Session.State.{State}
use ddht.Prelude.Bytes.{Bytes}
