-- ===== src/Tests.antt =====
-- Runs at concrete inputs, and the inputs at which the theorems' hypotheses hold.
mod Fixtures
mod Objects
mod Opening
mod Sessions
mod Copying
mod Joining
mod Serving
mod Creating
mod Digests
mod Transports
mod Describing
mod Agreeing
mod Collecting
mod Talking
mod Connecting
mod Calling
mod Pumping
mod Printing
mod Streaming
mod Carrying
mod Living
mod Sharing
mod Meeting
mod Rounding
mod Chatting
