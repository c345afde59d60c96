-- ===== src/Comm.antt =====
-- The connections of the players, lpmud/comm1.c: the buffer of typed text and its commands (Buffer),
-- the removal of telnet's control bytes (Telnet), the table of connections with who snoops on
-- whom (Snoop), and the turns of the players (Turns).
pub mod Buffer
pub mod Telnet
pub mod Snoop
pub mod Turns
mod Slice
mod Pending
mod Commands
mod Line
mod Results
mod Pairs
mod Closing
mod Fairness
mod Ahead
mod Nearer
mod Tests
