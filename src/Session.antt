-- ===== src/Session.antt =====
-- src/smtp.c: the state that the filter keeps for a connection, the table of connections, and the
-- events that change them; src/tcp.c.
pub mod Buffer
pub mod Table
pub mod Dispatch
