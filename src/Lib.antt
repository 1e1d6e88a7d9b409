-- ===== src/Lib.antt =====
-- The 3C509B test harness of tools/exe-harness/harness.js.
--
-- The harness runs the network programs of the Sprinter kit against a model of the 3Com
-- EtherLink III and of the peers behind its wire. Its parts, and the files that model them:
--
--   Frame: the frames. `checksum` and `putChecksum` are in Frame/Checksum, the IPv4 header that
--   every builder writes is in Frame/Ip, and `buildArpReply`, `buildIcmpReply`, `udpDatagram`,
--   `buildUdpReply`, `tcpSegment`, `buildTcpReply`, `buildDnsReply`, `buildNtpReply`,
--   `dhcpMessageType` and `buildDhcpReply`, with their neighbours, are in the modules of those
--   protocols. A frame is a list of bytes, each below 256, so that `(hi << 8) | lo` is a sum;
--   `null` is `none`.
--
--   Card: `class EtherLinkIII` as the program sees it. The record `Card` is the state of the
--   object. Card/Id is the ID port (`lfsr`, `idWrite`, `idRead`), Card/Command the command
--   register, Card/Fifo the two FIFOs (`txByte`, `rxByte`) with the queues behind them, Card/Bus
--   the register window (`readWord`, `writeWord`, `readByte`, `writeByte`). An error that the
--   source throws is a `Fault`; the state that goes with it is lost, as the harness stops there.
--   The card hands each transmitted frame to the peers, the record `Peers`, which is a parameter:
--   they answer with frames, which the card queues, delays or refuses. Card/Eeprom is
--   `eepromWords`, Card/New the constructor.
--
--   Peer: what the peers do. Peer/Tcp is the state of the TCP responder, Peer/Tcp/Drain is
--   `drainConnectionSendQueue`, Peer/Tcp/Recover is `recoverLoss` with `retransmitAt`, and
--   Peer/Tcp/Stages and Peer/Tcp/Respond are `respondTcp`, and Peer/Tcp/Credit is
--   `creditClientAck`. Peer/Http is the answer of the http server, whose lists of responses are used
--   up by the requests before. Peer/Ftp is `respondFtp`: Peer/Ftp/Commands is `computeFtpReply`,
--   Peer/Ftp/Lines `handleFtpControlData`, Peer/Ftp/Channel the data channel, and
--   Peer/Ftp/Respond the stages of `respondTcp` with the callbacks of the two channels.
--   `ftpControlConn` is a reference, which may outlive its entry in the table of connections:
--   Peer/Ftp/Objects follows it. Peer/Tftp is `respondTftp`; Peer/Scenario and Peer/Respond are the
--   dispatcher `respond`, which gives the card its `Peers`. A JavaScript object that the source
--   mutates is a record that each step returns anew; the frames that a call queues are a list of
--   `Reply` in the order in which the source queues them.
--
--   Machine: what `runExe` puts around the processor. Machine/Load is the check of the header and
--   the start, Machine/Memory is `rd` and `wr`, Machine/Ports `io_read` and `io_write`,
--   Machine/Pages the DSS calls on pages, Machine/Stack what a call does to the stack and the
--   strings in memory, Machine/Disk the calls on files, Machine/Clock SYSTIME (in milliseconds), Machine/Console
--   the environment and the keyboard, Machine/Executable the pages that `strictPc` lets the
--   program run in, and Machine/Session puts the calls together: a run of the program is a list of
--   what the processor does, any list at all. Memory is a function from addresses to bytes.
--
--   Base: what the parts share, above all the lists, bytes and words, and the Boolean tests.
--
-- Loops are structural recursions, except a few on fuel. The option loop of `tcpSegment` moves
-- on by at least a byte in each round, so it has the length of the header for fuel; the loop over
-- the labels of a DNS name moves on by at least two, so it has the length of the query; the loop
-- of `drainConnectionSendQueue` sends at least a byte in each round, so it has the length of the
-- queue, and 24 rounds more where the end of an FTP transfer may add its reply to the same queue.
-- The loop over the command lines of FTP takes at least two bytes, so it has the number of bytes.
-- The option loop of `dhcpMessageType` has the length of the frame, the digits of a number
-- one more than the number, and `cstr` the bound of the source.
--
-- Not modelled: the text of `tcpTrace`; of `runExe` the traces, the stack minima and the collapse of
-- delay loops; Z80core.js, a processor from a third party; and the assembly of the kit itself, which
-- runs on top of the harness. The record of executable pages is kept beside a run: READ and the
-- calls that map a page do not update it in Machine/Session.
mod Base
pub mod Frame
pub mod Card
pub mod Peer
pub mod Machine
