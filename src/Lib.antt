-- ===== src/Lib.antt =====
-- The USB audio offload path of Qualcomm's QDSP6 drivers. An audio DSP plays to a USB device on its
-- own: it asks the kernel over QMI for the transfer rings of the device's endpoints, and the kernel
-- takes these endpoints over from the xHCI driver and maps their rings and a buffer for the DSP.
--
-- The parts:
-- - Iova: the allocator of I/O addresses in upstream-src/sound/usb/qcom/qc_audio_offload.c.
--   `get_iova` is `uaudio_get_iova`, `put_iova` is `uaudio_put_iova`, and `init_pool` is the part of
--   `qc_usb_audio_offload_init_qmi_dev` for one pool. A pool is a list of regions in the order of
--   their addresses, the amount that is left and the next fresh address. `Rings.RingCall` is a call
--   as the driver makes it for the ring pool, whose regions are single pages.
-- - Stream: the numbers of a request: the token of q6apm-lpass-dais.c
--   (upstream-src/sound/soc/qcom/qdsp6) and its decoding, the service interval
--   (`get_data_interval_from_si`), PREPEND_SID_TO_IOVA and IOVA_MASK, and the buffer length of
--   `uaudio_transfer_buffer_setup`.
-- - Sideband: source-reference/kernel/usb-host/xhci-sideband.c, each exported function by its name
--   without `xhci_sideband_`. `State` is one instance with the device it was registered for.
-- - Offload: the rest of qc_audio_offload.c. `Iommu` has `uaudio_iommu_map_pa`,
--   `uaudio_iommu_map_xfer_buf` and `uaudio_iommu_unmap`; `Setup` the four set-up functions;
--   `Response` is `prepare_qmi_response`, one function for each stage between two labels and one for
--   each label; `Request` the lookups, the start of the endpoints and the clean-up; `Handler` with
--   `Handler.Dispatch` is `handle_uaudio_stream_req` over `Service`, the driver's three globals;
--   `Format` is `map_pcm_format`; `Session` has probe, disconnect, suspend and the disconnect
--   indication, and `Session.Stop` the two QMI callbacks with `qmi_stop_session`. `none` is a fault
--   there.
--
-- - Apm: the graphs of source-reference/kernel/qdsp6/q6apm.c. `Apm` itself has the buffers of a
--   stream and its data commands `q6apm_write_async` and `q6apm_read`; `Memory` has
--   `q6apm_map_memory_regions` and `q6apm_unmap_memory_regions`, `Regions` the packet that
--   `audioreach_map_memory_regions` fills in, `Callback` `graph_callback`, and `Command`
--   `audioreach_send_cmd_sync`, by their names without the prefix. `Apm.Graphs` is the life of a
--   graph, shared by its clients: `q6apm_graph_open` to `q6apm_graph_flush`, and `Protocol` the
--   commands that the DSP takes in each state of a graph.
-- - PcmDai, ComprDai: the PCM and the compressed streams of
--   source-reference/kernel/qdsp6/q6apm-dai.c once they are set up: what they queue on their graph
--   when the application has written or a buffer is done, and what they report.
-- - Lpass: upstream-src/sound/soc/qcom/qdsp6/q6apm-lpass-dais.c, the back-end DAIs that open, start,
--   stop and close these graphs.
-- - Topology: source-reference/kernel/qdsp6/topology.c with the structures of audioreach.h. `Topology`
--   itself is `audioreach_parse_common_tokens` for a new module. `Tables` has the tables of graphs,
--   sub-graphs, containers and modules, in `Levels` one lookup table for each kind: `Arrays` searches
--   the vendor arrays of a widget, `Parse` is `audioreach_widget_load_module_common` with the
--   functions that it calls, `Unload` is `audioreach_widget_unload`, and `Data` adds to both the private
--   data of a module (`audioreach_get_module_priv_data`). `Widgets` has the
--   parameters of the modules, `audioreach_widget_load_buffer`, the mixer controls and
--   `audioreach_route_load`.
-- - Packet: `audioreach_alloc_graph_pkt` and `audioreach_populate_graph` of
--   upstream-src/sound/soc/qcom/qdsp6/audioreach.c, the packet that opens a graph. `Graphs` reads what
--   the tables of Topology hold as the lists that this packet is made of; this is a view of them and
--   stands for no code.
-- - Media: `audioreach_set_media_format` and the gain of the same file. `Params` has the parameters
--   that one module takes, each a list of fields with their widths, `Dispatch` the packets with their
--   allocated size, in the order in which they are sent.
-- - Q6usb: upstream-src/sound/soc/qcom/qdsp6/q6usb.c, the USB devices that are connected to the back
--   end, the one selected for offloading, the headset jack and the routes.
--
-- Offload calls Iova through `Iommu` and Sideband through `Setup`; `Handler` calls `Response` with
-- the card that the token names. The probe of Offload hands its devices to Q6usb; Lpass calls
-- `Apm.Graphs`, PcmDai and ComprDai call `Apm` and are called back by it, and Packet and Media read
-- the modules that Topology makes.
--
-- Constants: PAGE_SIZE is 4096, SNDRV_CARDS is 32, a device has 31 endpoints. `unsigned long` and
-- `size_t` have 64 bits, and `u32`, `u8` theirs; where a definition wraps around, this is
-- written out. Three definitions run on fuel: `ffs_bits`, which looks at the 32 bits of an `int`, and
-- `Arrays.get_array` and `Data.get_priv_data`, whose fuel is one more than the bytes of the arrays:
-- each round takes a step of at least one byte or stands still for ever.
-- Errors of the code are `err` with the errno, an access outside an array or a null table is the
-- reply `fault`. While the disconnect indication waits for the DSP, `Session.Wait` lists the requests
-- that are handled meanwhile, and those that are handled after the wait before the lock is taken again.
-- `Apm.Sending` says whether the packet of a write can be allocated, and what the send returns.
--
-- Calls out of the sources are arguments: outcomes of allocations, the xHCI driver's and the USB
-- core's answers, `iommu_map`, and the sound driver's steps in `EnableEnv`. Page tables, QMI
-- encoding, logging and locks are not modelled: a request runs from its lock to its unlock as one
-- step. A call that faults, such as one through a null pointer or outside an array, is `none` in Apm,
-- Lpass, PcmDai, ComprDai, Topology, Packet and Q6usb; Topology.Tables has `fault` for it, and
-- `endless` for a loop that does not end. Not modelled are the registration of the QMI
-- service, the notifier of the sideband, the end of stream
-- in audioreach.c, what the private data of modules hold and the volume widgets in topology.c, and the set-up of
-- streams in q6apm-dai.c; neither are device trees and scripts, which are configuration, and the AFE
-- and PRM drivers, which send messages.
pub mod Prelude
pub mod Iova
pub mod Stream
pub mod Sideband
pub mod Offload
pub mod Apm
pub mod Lpass
pub mod Topology
pub mod Packet
pub mod Media
pub mod Q6usb
pub mod PcmDai
pub mod ComprDai
