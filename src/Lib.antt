-- ===== src/Lib.antt =====
-- A model of viosnd, the virtio sound driver for Windows, as viosnd/sys/viosnd.vcxproj builds it: a
-- PortCls driver whose WaveRT streams exchange packets with a virtio sound device.
--
-- The parts, from the device up, and the files that model them:
-- Protocol: the codes and structures of viosnd/sys/VirtioSnd.h; Status: the NTSTATUS values used.
-- Pcm: viosnd/sys/ViosndPcm.cpp: formats, the SET_PARAMS request, and ViosndFindStreamPair.
-- Pcm/Selection says declaratively which streams it is to select.
-- Virtio: viosnd/sys/ViosndVirtio.cpp. Host is what the driver calls and this driver does not
-- implement (pool, common buffers, delays, virtqueues), as a record over an abstract world, and Bus
-- the same for the bring-up (PnP, PCI, I/O space, the virtio device); Device is the driver's own
-- state; Dma the list of DMA buffers; Bars the base address registers and the ranges mapped of them;
-- Control the control queue (ViosndControlCommand); Pcm the PCM commands and the stream query; Io the
-- transfers of both directions (ViosndSubmitPreparedWritePcm and so on); Sync those that wait for
-- the device or allocate their own buffers, which the streams do not use; Events the event queue;
-- Setup the creation, the initialization and the removal of the device.
-- WaveRt: viosnd/sys/ViosndWaveRT.cpp. Geometry, Packet, Samples, Downsample and Clock are the pure
-- helpers of its stream class; Stream its fields and the calls of the audio stack that run on them
-- alone; Render and Capture move packets to and from the queues through Virtio.Io; Worker is the
-- render worker's fill loop and its switch to the fallback format; Thread the rounds of both worker
-- loops, and the start and the stop of the thread; State is SetState; Buffer the audio buffer;
-- Miniport the formats that are offered and accepted, and NewStream. Kept is what the calls of the
-- worker leave alone; Ownership relates the state, the worker and its thread object; Calls is the
-- life of a stream as a step relation.
-- Adapter: viosnd/sys/Adapter.cpp: XcbVirtioAudioStartDevice, from the creation of the device to the
-- registration of its endpoints.
-- Topology: the jacks of viosnd/sys/ViosndTopology.cpp and its property handler.
-- Acx: the variant of the driver for ACX that the project file does not build. Host is what it calls;
-- Stream its stream and Ready the ring of packets that wait; Periods the DMA buffers and their
-- submission; Drain the drains of the queues and the stop; Packets the memory shared with the audio
-- stack; Calls the creation and the callbacks of a stream; Levels the volume and mute elements
-- (viosnd/sys/ViosndAcxCircuit.cpp); Control the control queue
-- (viosnd/sys/ViosndAcxVirtio.cpp); Device the device, its event queue, and its power and interrupt
-- callbacks (viosnd/sys/ViosndAcxDriver.cpp). Tracked relates the periods to the virtqueue.
-- Base: the names shared by all of them, with the words of 32 and 64 bits and the integers.
--
-- A function keeps its name, in snake case and without the prefix Viosnd or the class, with acx_
-- before it where the ACX variant repeats a name of the driver. It takes the stream, the device
-- and the world that it works on and returns them after the call. A NULL pointer is 0 or none. A
-- ULONG is a number whose wrap-around is written out. m_Buffer is a function from a packet's
-- place in the ring to the bytes of that packet, since the code addresses it by whole packets
-- only. The pools of transfers are lists, the entry taken next first. A handler that returns
-- early is a chain of calls, bound one after the other, of which the tests below take the first
-- that failed.
--
-- The calls of the stream class are taken as atomic, and so are the rounds of its worker: the code
-- has no lock around the fields, and an interleaving inside a call is not modelled, but for the wait
-- of StopRenderWorker, during which the worker makes any rounds. Calls takes them in any order, with
-- the rounds of threads that have outlived their stop and that the code has forgotten. Of Release it
-- has the calls that are not the last: the end of the stream's life is not modelled. The counter
-- and its frequency are arguments of the calls that read them. Fields and counters that only the log
-- reads are left out, and so are the log, what Adapter.cpp writes to the registry for diagnosis, and
-- the reference counts of the port class objects.
--
-- Loops run on fuel where the source's loop has no bound of its own: polling the control queue, with
-- one round for each message on the queue and 5001 for the milliseconds of the timeout; waiting for
-- a synchronous transfer, with its 5000 milliseconds; reclaiming and detaching, with one round more
-- than the queue holds transfers; filling, with one round for each packet of the target. Each round
-- takes a message or a transfer off its queue, passes a millisecond, or adds a transfer, or is the
-- last; only ReclaimCapturePackets goes on without a receive queue. The loops of the ACX variant have
-- one round for each ready packet, for each millisecond of a timeout and the last, or for each buffer
-- that the device has used: it uses none while the driver drains a queue.
-- The rounds of a worker are as many as its thread makes: they are a list, of any length.
--
-- What is assumed of the virtqueues is in the records TxLaws, DetachLaws, RxLaws, ControlLaws and
-- EventLaws: adding an entry makes the length one more, getting one makes it one less, and nothing
-- else changes it; the event queue has room again for a buffer that it gave back. MdlLaws says that a
-- mapping is not empty and that its size is a ULONG. CommonLaws, QuietLaws, BusLaws and PortLaws say
-- which calls allocate and free common buffers, and that the others do not. Of a thread, that the
-- object of one that could be referenced is not NULL, and of MmMapIoSpaceEx and AllocateCommonBuffer,
-- that they do not succeed with NULL. QueueLaws, Quiet and Counts say the same of the ACX host: a queue
-- holds what is added and not given back, a control command leaves it, and memory is counted. Blocks
-- says it of the pool and of MDLs, and that an allocation is as long as asked for and leaves others.
-- A failed VirtIOWdfInitQueues may write Device->Queues.
--
-- Not modelled: the virtio library VirtIO/ and the kernel, which are parameters; in
-- ViosndVirtio.cpp, the accessors of single registers; in ViosndWaveRT.cpp, the property tables
-- and QueryInterface; the descriptors of ViosndTopology.cpp; the entry of the driver; of the ACX
-- variant, the creation of circuits, pins, formats and elements, which is calls of ACX, and the
-- locks, since the calls of a stream and of the device are taken as atomic; and Tools/. The
-- bars that the virtio library maps while ViosndInitVirtio runs, through the driver's callback
-- ViosndMapAddressRange, are not seen by ViosndInitVirtio in the model.
pub mod Base
pub mod Status
pub mod Protocol
pub mod Pcm
pub mod WaveRt
pub mod Virtio
pub mod Adapter
pub mod Acx
pub mod Topology
