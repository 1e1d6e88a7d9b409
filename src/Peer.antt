-- ===== src/Peer.antt =====
-- The peers behind the wire: what `class EtherLinkIII` answers to the frames that the program
-- transmits.
pub mod Http
pub mod Tcp
pub mod Text
pub mod Tftp
pub mod Ftp
pub mod Scenario
pub mod Respond
mod Tests
