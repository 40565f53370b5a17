-- ===== src/Lib.antt =====
-- The DeviceSettings plugin: its event-driven core, the front panel from the interface to the HAL, and
-- the platform layers of the video and audio ports.
--
-- The plugin puts the device's HAL (video and audio ports, display, HDMI and composite input, front
-- panel, host) behind Thunder interfaces. On top of them run three parts that react to events and
-- drive the ports: DSController (hot plug, HDCP, tune ready and EAS), DSPwrEventListener (power
-- events) and the UXController of the product's profile. They call the DeviceSettings implementation,
-- glib's timers and the IARM bus; that layer is the parameter `Device` here, and a reply of it may
-- depend on every call made before. Under the interface IDeviceSettingsFPD the front panel is modelled
-- whole, down to the calls of the HAL and of the host's persistence, which are the parameter `Host`.
-- Of the video and the audio ports the platform layers are modelled, over the parameters `Hal` and
-- `AudioHal`: a record of the calls of the HAL, of the host's persistence and of the callbacks above,
-- over a state that they share.
--
-- Which file models what (paths from the repository's root):
--   Device          what plugin/DSController.cpp, plugin/DSPwrEventListener.cpp and
--                   plugin/DSProductTraitsHandler.cpp call, the log of the calls, newest first, and the monad
--                   of code that makes them; Device/Log and Device/Returns state what code adds to the log
--   Resolution      plugin/DSController.cpp: isEUPlatform, setupPlatformConfig, getSecondaryResolution,
--                   parseResolution, getFallBackResolution; Resolution/Select the choice inside SetResolution
--   Controller      plugin/DSController.cpp and .h: the members, GetVideoPortHandle, IsHDMIConnected,
--                   isComponentPortPresent; Controller/Video SetVideoPortResolution, SetResolution and
--                   SetBackgroundColor; Controller/Audio SetAudioMode and SetEASAudioMode; Controller/Events
--                   HandleHDCPStatus, OnDisplayHDMIHotPlug, SysModeChange, SetResolutionHandler and the tune
--                   ready event; Controller/Events/Thread ResolutionThreadFunc, as a step relation
--   Power           plugin/DSPwrEventListener.cpp: IsDeviceSettingsReady, RefreshPortConfigurationCache;
--                   Power/Standby the table of standby settings; Power/Ports SetAVPortsPowerState,
--                   ConfigureVideoPort, ConfigureAudioPort, SetLEDStatus; Power/Handlers HandlePwrEventData,
--                   PwrControllerFetchNinitStateValues and the bodies of the five IARM calls;
--                   Power/Connection the connection with the power manager; Power/Events the queue of
--                   power events and PwrEventHandlingThreadFunc, as a step relation
--   Traits          plugin/DSProductTraitsHandler.cpp and .h: UXController and the four profiles;
--                   Traits/Pattern the bootloader's pattern; Traits/Reboot the reboot reason; Traits/Apply
--                   the operations that the profiles override; Traits/Runs sequences of operations
--   Fpd             plugin/hal/dFPDImpl.h: the statics, InitialiseHAL, DeInitialiseHAL, EnsurePlatInit;
--                   Fpd/Platform its operations; Fpd/Component plugin/fpd.cpp; Fpd/Service
--                   plugin/DeviceSettingsFPDImplementation.cpp with its clients; Fpd/Numbers std::to_string
--                   and atoi
--   HdmiStatus      plugin/DeviceSettingsHdmiStatus.cpp: _dsSyncHdmiStatus; HdmiStatus/Lines what it leaves
--   VideoPort       plugin/hal/dVideoPortImpl.h: the static variables; VideoPort/Conversions the conversions of
--                   port types and resolutions, and buildResolutionFromName; VideoPort/Cache the cached names,
--                   persistVideoPortResolution and getPersistenceValue; VideoPort/Operations GetVideoPort,
--                   SetVideoPortResolution and GetVideoPortResolution; VideoPort/Depth the preferred color
--                   depth; VideoPort/Force the refusal of 4K; VideoPort/Hdcp the HDCP status; VideoPort/Init
--                   InitialiseHAL and DeInitialiseHAL
--   Audio           plugin/hal/dAudioImpl.h: the members and getAudioPortType; Audio/Volume the level, the mute
--                   and the ducking, with Audio/Ducking and Audio/Mute on what they do; Audio/Stereo the stereo
--                   mode and its auto mode; Audio/Saver the thread that saves the levels, as a step relation,
--                   with Audio/Saver/Abstract its specification and Audio/Saver/Handover
--                   how SetAudioLevel hands a level over
--   Tests           runs on concrete inputs
--
-- Conventions. A C string is a list of byte values without the closing NUL, and a write into a buffer
-- keeps its bound. A result code is a number, 0 for success. Code that makes calls returns `none`
-- where the process aborts. Log lines and telemetry are left out. In the layers of the video and audio
-- ports an exception of the persistence ends what its `try` block does. Numbers are natural numbers;
-- they stand for values of the source that are not negative, which the modelled code compares, masks
-- and passes on; the handles of video and audio ports, which it also casts, are bit patterns, and the
-- levels, which are floats, are counted in hundredths and cut to whole numbers where the source casts
-- them.
--
-- Bounds and fuel. ScheduleRebootReasonCheck starts a thread per retry; the chain of the checks runs
-- on fuel, and 61 are enough since the source stops after 60 retries. The tries of
-- SetBootloaderPatternAsync (12) and of dsFPInit (20) are the source's own bounds. The connection
-- thread of the power listener loops until it succeeds; it runs on the list of the tries' outcomes.
-- All other loops are over lists.
--
-- Not modelled: the display, host, HDMI input, composite input and video device services with their
-- HALs; the audio and video port services above the platform layers; of these layers the registration
-- of callbacks, the enabling of audio ports, the MS12 settings, the initial settings of
-- audioConfigInit and the operations that only pass a value to or from the HAL; parts of a level finer
-- than a hundredth, and the rounding of floats; the HAL configuration loader, the plugin's shell and
-- its JSON-RPC registration, the dump of the EDID to a file, and the loop that waits for the HDMI DDC
-- line, which is compiled under _INIT_RESN_SETTINGS only.
pub mod Prelude
pub mod Device
pub mod Resolution
pub mod Controller
pub mod Power
pub mod Traits
pub mod Fpd
pub mod HdmiStatus
pub mod VideoPort
pub mod Audio
mod Tests
