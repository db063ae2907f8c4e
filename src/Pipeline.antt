-- ===== src/Pipeline.antt =====
-- src/client/Pipeline.cpp, Pipeline.h and PipelineAck.h: the pipeline of data nodes to which the
-- packets of one block are sent, the queue of the packets that wait for their acknowledgement, and
-- what is done when a data node fails.
pub mod Calls
pub mod State
pub mod Acks
pub mod Recovery
pub mod Sending
pub mod NewBlock
pub mod Frames
pub mod Rebuilding
pub mod Heard
pub mod Queue
pub mod Resending
pub mod Delivery
pub mod Ending
pub mod Flushing
pub mod Closing
