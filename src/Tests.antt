-- ===== src/Tests.antt =====
-- Runs of the model on concrete inputs, and the theorems at inputs that meet their hypotheses.
mod SampleJson
mod SampleServer
mod ClientTests
mod RestTests
mod ResourceTests
mod SampleCurl
mod RequestTests
mod HpcTests
mod OrderTests
mod SharingTests
mod WebTests
mod CApiTests
mod ConnectTests
mod ResourceInfoTests
mod ProgressTests
mod ServiceTests
mod PythonTests
mod HandlesTests
mod TimestampTests
