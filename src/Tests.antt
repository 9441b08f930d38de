-- ===== src/Tests.antt =====
-- Runs of the definitions at concrete inputs, and the theorems at inputs that meet their hypotheses.
mod RequestTests
mod IoTests
mod ServeTests
mod PoolTests
mod ChildTests
mod LogTests
mod MainTests
mod QueueTests
mod HandoverTests
mod EpollTests
mod KindsTests
mod StartTests
mod NewestTests
mod ListenTests
mod ReplyTests
mod EscapeTests
mod VisitTests
mod LeakTests
mod DownloadTests
